-- ===== src/Server/Counts.antt =====
-- How often a descriptor occurs in the lists of OS_HW3_234123/server.c, and how the operations of
-- a queue and of the table of workers change that.
use os.Prelude.{
  ℕ, zero, suc, ◌+◌, ◌<◌, ◌≤◌, ◌≡◌, refl, ap, sym, ◌⊎◌, true, false, some, List, [], ◌∷◌, ◌++◌, map,
  arith, if◌then◌else◌, length, length-append, get_elem?, set, erase_idx, Bool-cases, inl, inr,
}
use os.Prelude.Int.{ℤ, pos, ◌==ℤ◌, ==ℤ_iff, ==ℤ_self}
use os.ReqQ.{failure}
use os.ReqQ.Links.{Entry}
use os.ReqQ.Spec.{is_full, remove_at, fd_of}
use os.ReqQ.Fifo.{Fifo, size, insert, remove, find, find_from}
use os.Server.{Worker, ready, handling, served, Master, accepting, block_wait, bf_wait}

abbrev pub one : ℤ → ℤ → ℕ
one c d = if c ==ℤ d then 1 else 0

abbrev pub count : ℤ → List ℤ → ℕ
count c [] = 0
count c (d ∷ ds) = one c d + count c ds

abbrev pub fds : List Entry → List ℤ
fds = map (λ e. e.fd)

-- The descriptors with a worker that has not closed them yet, and with any worker.
abbrev pub serving_of : Worker → List ℤ
serving_of ready = []
serving_of (handling fd arrival) = fd ∷ []
serving_of (served fd) = []

abbrev pub engaged_of : Worker → List ℤ
engaged_of ready = []
engaged_of (handling fd arrival) = fd ∷ []
engaged_of (served fd) = fd ∷ []

abbrev pub over : (Worker → List ℤ) → List Worker → List ℤ
over f [] = []
over f (w ∷ ws) = f w ++ over f ws

abbrev pub waiting : Master → List ℤ
waiting accepting = []
waiting (block_wait connfd time) = connfd ∷ []
waiting (bf_wait connfd) = connfd ∷ []

pub count-append : (c : ℤ) (xs ys : List ℤ) → count c (xs ++ ys) ≡ count c xs + count c ys
count-append c [] ys = omega arith
count-append c (x ∷ xs) ys = omega (arith, count-append c xs ys)

pub count-fds-snoc :
    (c : ℤ) (es : List Entry) (e : Entry)
    → count c (fds (es ++ e ∷ [])) ≡ count c (fds es) + one c e.fd
count-fds-snoc c [] e = omega arith
count-fds-snoc c (x ∷ es) e = omega (arith, count-fds-snoc c es e)

-- A removal takes the descriptor that it returns.
pub count-erase_idx :
    (c : ℤ) (es : List Entry) (i : ℕ)
    → i < length es
    → count c (fds es) ≡ count c (fds (erase_idx es i)) + one c (fd_of (get_elem? es i))
count-erase_idx c [] i lt = elim lt [ ]
count-erase_idx c (e ∷ es) zero lt = omega arith
count-erase_idx c (e ∷ es) (suc i) lt = omega (arith, count-erase_idx c es i (omega arith))

-- What `findFileId` and `removeReq` do together: the first entry with the descriptor goes.
abbrev pub erase_fd : ℤ → List Entry → List Entry
erase_fd fd [] = []
erase_fd fd (e ∷ es) = if fd ==ℤ e.fd then es else e ∷ erase_fd fd es

-- The index grows with the number that the count starts from.
find_from_next :
    (fd : ℤ) (es : List Entry) (i j : ℕ)
    → j ≡ suc i
    → ((find_from i fd es ≡ failure) × (find_from j fd es ≡ failure))
      ⊎ ((k : ℕ) × (find_from i fd es ≡ pos k) × (find_from j fd es ≡ pos (suc k)))
find_from_next fd [] i j e = inl (refl, refl)
find_from_next fd (x ∷ es) i j e = elim (Bool-cases (fd ==ℤ x.fd)) [
  | inl hit ↦ inr (i, rw hit, rw (hit, e))
  | inr miss ↦ rw miss (find_from_next fd es (i + 1) (j + 1) (omega arith))
]

remove-find_from : (fd : ℤ) (es : List Entry) → remove_at (find_from 0 fd es) es ≡ erase_fd fd es
remove-find_from fd [] = refl
remove-find_from fd (e ∷ es) = elim (Bool-cases (fd ==ℤ e.fd)) [
  | inl hit ↦ rw hit
  | inr miss ↦ rw miss (elim (find_from_next fd es 0 (0 + 1) (omega arith)) [
    | inl (a, b) ↦ rw b (ap (λ t. e ∷ t) (rw a at (remove-find_from fd es)))
    | inr (k, a, b) ↦ rw b (ap (λ t. e ∷ t) (rw a at (remove-find_from fd es)))
  ])
]

pub remove-find :
    (fd : ℤ) (f : Fifo) → (remove (find fd f) f).1 ≡ record f { items = erase_fd fd f.items }
unfolding remove find
remove-find fd f = rw (remove-find_from fd f.items)

one_eq : (c d d' : ℤ) → (d ==ℤ d') ≡ true → one c d' ≡ one c d
one_eq c d d' h = ap (one c) (sym ((==ℤ_iff d d').0 h))

pub count-erase_fd :
    (c fd : ℤ) (es : List Entry)
    → 0 < count fd (fds es)
    → count c (fds es) ≡ count c (fds (erase_fd fd es)) + one c fd
count-erase_fd c fd [] h = absurd (omega arith)
count-erase_fd c fd (e ∷ es) h = elim (Bool-cases (fd ==ℤ e.fd)) [
  | inl hit ↦ rw hit (omega (arith, one_eq c fd e.fd hit))
  | inr miss ↦
      let rest : 0 < count fd (fds es) = omega (arith, rw miss at h) in
      rw miss (omega (arith, count-erase_fd c fd es rest))
]

pub length-erase_fd :
    (fd : ℤ) (es : List Entry) → 0 < count fd (fds es) → length es ≡ length (erase_fd fd es) + 1
length-erase_fd fd [] h = absurd (omega arith)
length-erase_fd fd (e ∷ es) h = ground (arith, length-erase_fd fd es)

-- The table of workers when worker `i` changes from `v` to `w`.
pub count-over-set :
    (f : Worker → List ℤ) (c : ℤ) (ws : List Worker) (i : ℕ) (v w : Worker)
    → get_elem? ws i ≡ some v
    → count c (over f (set ws i w)) + count c (f v) ≡ count c (over f ws) + count c (f w)
count-over-set f c [] i v w h = cc
count-over-set f c (x ∷ ws) zero v w h =
    let e : x ≡ v = ground arith in
    let same : count c (f x) ≡ count c (f v) = ap (λ t. count c (f t)) e in
    omega (arith, count-append c (f w) (over f ws), count-append c (f x) (over f ws), same)
count-over-set f c (x ∷ ws) (suc i) v w h = omega (
  arith,
  count-append c (f x) (over f (set ws i w)),
  count-append c (f x) (over f ws),
  count-over-set f c ws i v w h,
)

pub length-over-set :
    (f : Worker → List ℤ) (ws : List Worker) (i : ℕ) (v w : Worker)
    → get_elem? ws i ≡ some v
    → length (over f (set ws i w)) + length (f v) ≡ length (over f ws) + length (f w)
length-over-set f [] i v w h = cc
length-over-set f (x ∷ ws) zero v w h =
    let e : x ≡ v = ground arith in
    let same : length (f x) ≡ length (f v) = ap (λ t. length (f t)) e in
    omega (arith, length-append (f w) (over f ws), length-append (f x) (over f ws), same)
length-over-set f (x ∷ ws) (suc i) v w h = omega (
  arith,
  length-append (f x) (over f (set ws i w)),
  length-append (f x) (over f ws),
  length-over-set f ws i v w h,
)

pub count-le-over :
    (f : Worker → List ℤ) (c : ℤ) (ws : List Worker) (i : ℕ) (v : Worker)
    → get_elem? ws i ≡ some v
    → count c (f v) ≤ count c (over f ws)
count-le-over f c [] i v h = cc
count-le-over f c (x ∷ ws) zero v h =
    let e : x ≡ v = ground arith in
    let same : count c (f x) ≡ count c (f v) = ap (λ t. count c (f t)) e in
    omega (arith, count-append c (f x) (over f ws), same)
count-le-over f c (x ∷ ws) (suc i) v h =
    omega (arith, count-append c (f x) (over f ws), count-le-over f c ws i v h)

-- No more workers are engaged than there are.
pub length-engaged : (ws : List Worker) → length (over engaged_of ws) ≤ length ws
length-engaged [] = omega arith
length-engaged (ready ∷ ws) = omega (arith, length-engaged ws)
length-engaged (handling fd arrival ∷ ws) = omega (arith, length-engaged ws)
length-engaged (served fd ∷ ws) = omega (arith, length-engaged ws)

pub length-set : (ws : List Worker) (i : ℕ) (w : Worker) → length (set ws i w) ≡ length ws
length-set [] i w = refl
length-set (x ∷ ws) zero w = refl
length-set (x ∷ ws) (suc i) w = ap suc (length-set ws i w)

-- A queue with room takes an entry at its end.
pub insert-room :
    (e : Entry) (f : Fifo) (n : ℕ)
    → f.limit ≡ pos n
    → size f < n
    → insert e f ≡ record f { items = f.items ++ e ∷ [] }
unfolding insert
insert-room e f n lim lt =
    let room : is_full f.limit f.items ≡ false = rw lim (ground arith) in rw room

pub size-insert :
    (e : Entry) (f : Fifo) (n : ℕ) → f.limit ≡ pos n → size f < n → size (insert e f) ≡ size f + 1
size-insert e f n lim lt =
    rw (insert-room e f n lim lt) (omega (arith, length-append f.items (e ∷ [])))

pub one_self : (c : ℤ) → one c c ≡ 1
one_self c = rw (==ℤ_self c)
