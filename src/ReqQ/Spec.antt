-- ===== src/ReqQ/Spec.antt =====
-- The abstract view of the queue of OS_HW3_234123/reqQ.c: a list with a limit, first come first.
use os.Prelude.{
  ℕ, ◌+◌, ◌≡◌, Bool, true, false, Option, none, some, List, [], ◌∷◌, ◌++◌, map, if◌then◌else◌,
  length, erase_idx, get_elem?,
}
use os.Prelude.Int.{ℤ, pos, negsuc, ◌==ℤ◌}
use os.ReqQ.{ReqQueue, ReqQ, failure}
use os.ReqQ.Heap.{Ptr, null, Heap}
use os.ReqQ.Links.{Entry, Cells, Linked, has, first_or, last_or, SameOutside}

-- The queue structure `q` describes the nodes `xs` of the heap. The first node's `previous` is
-- whatever `malloc` left there or NULL.
pub record IsQueue (h : Heap) (q : ReqQueue) (xs : Cells) : Type 0 where
  pub before : Ptr
  pub chain : Linked h before xs null
  pub head_is : q.head ≡ first_or null xs
  pub tail_is : q.tail ≡ last_or null xs
  pub size_is : q.cur_size ≡ pos (length xs)

abbrev pub Holds : Heap → ReqQ → Cells → Type 0
Holds h none xs = ⊥
Holds h (some q) xs = IsQueue h q xs

abbrev pub limit_of : ReqQ → ℤ
limit_of none = failure
limit_of (some q) = q.max_size

-- Afterwards the queue holds `ys` under the old limit, and no node outside `touched` has changed.
pub record Outcome (h : Heap) (limit : ℤ) (touched ys : Cells) (q : ReqQ) (g : Heap) : Type 0 where
  pub queue : Holds g q ys
  pub same_limit : limit_of q ≡ limit
  pub same : SameOutside touched h g

module _ {ℓ} {A : Type ℓ} where
  abbrev pub is_full : ℤ → List A → Bool
  is_full limit xs = pos (length xs) ==ℤ limit

  -- A full queue takes nothing.
  abbrev pub push : ℤ → A → List A → List A
  push limit x xs = if is_full limit xs then xs else xs ++ x ∷ []

  abbrev pub pop_rest : List A → List A
  pop_rest [] = []
  pop_rest (x ∷ xs) = xs

  -- An index out of range removes nothing.
  abbrev pub remove_at : ℤ → List A → List A
  remove_at (pos i) xs = erase_idx xs i
  remove_at (negsuc i) xs = xs

  abbrev pub at : ℤ → List A → Option A
  at (pos i) xs = get_elem? xs i
  at (negsuc i) xs = none

abbrev pub entries : Cells → List Entry
entries = map (λ c. c.1)

abbrev pub fd_of : Option Entry → ℤ
fd_of none = failure
fd_of (some e) = e.fd

abbrev pub fd_of_cell : Option (Ptr × Entry) → ℤ
fd_of_cell none = failure
fd_of_cell (some c) = c.1.fd

abbrev pub first_fd : Cells → ℤ
first_fd [] = failure
first_fd (c ∷ xs) = c.1.fd

-- The index of the first entry with the descriptor, counted from `i`, or -1.
abbrev pub index_from : ℕ → ℤ → Cells → ℤ
index_from i fd [] = failure
index_from i fd ((p, e) ∷ xs) = if fd ==ℤ e.fd then pos i else index_from (i + 1) fd xs

abbrev pub time_of : ℤ → Cells → Ptr
time_of fd [] = null
time_of fd ((p, e) ∷ xs) = if fd ==ℤ e.fd then e.time else time_of fd xs

-- A removal: the value that is returned, the queue that is left, and the nodes that left it freed.
pub record Removed (h : Heap) (limit : ℤ) (xs ys : Cells) (wanted : ℤ) (fd : ℤ) (q : ReqQ)
    (g : Heap) : Type 0 where
  pub value : fd ≡ wanted
  pub rest : Outcome h limit xs ys q g
  pub freed : (a : Ptr) → has a xs ≡ true → has a ys ≡ false → g a ≡ none

abbrev pub first_time : Cells → Ptr
first_time [] = null
first_time (c ∷ xs) = c.1.time
