-- ===== src/Buddy/Start.antt =====
-- The blocks that the first call of `smalloc` of OS_HW4_234123/malloc_3.cpp starts with.
use os.Prelude.{
  ℕ, zero, suc, ◌+◌, ◌-◌, ◌*◌, ◌%◌, ◌≤◌, ◌<◌, ◌≡◌, refl, sym, subst, ◌∙◌, ◌⊎◌, inl, inr, true,
  false, some, [], arith, length,
}
use os.Buddy.Lists.{empty_list}
use os.Buddy.{State, max_order, size_128k, blocks_sizes, init_loop, initialise}
use os.Buddy.Order.{has}
use os.Buddy.Kept.{SameBlock-refl}
use os.Buddy.Heap.{Orders, IsHeap, IsHole}
use os.Buddy.Split.{Grows, Grows-trans, IsFilled, add_block-IsFilled}

-- Behind the loop there are `left` more blocks, one behind the other from `res` on, all free.
pub record IsStarted (left res : ℕ) (s s' : State) (xs ys : Orders) : Type 0 where
  pub heap : IsHeap s' ys
  pub grows : Grows left s s' xs ys
  pub here : (n : ℕ) → n < left → has (res + n * size_128k) (ys max_order) ≡ true
  pub free : (n : ℕ) → n < left → (s'.memory (res + n * size_128k)).is_free ≡ true
  pub members :
      (j a : ℕ)
      → has a (ys j) ≡ true
      → (has a (xs j) ≡ true) ⊎ ((j ≡ max_order) × (n : ℕ) × (n < left) × (a ≡ res + n * size_128k))

-- All blocks are in front of the address.
abbrev Below : (res : ℕ) → Orders → Type 0
Below res xs = (j b : ℕ) → has b (xs j) ≡ true → b + blocks_sizes j ≤ res

behind-IsHole :
    (res : ℕ) (s : State) (xs : Orders)
    → IsHeap s xs
    → Below res xs
    → 1 ≤ res
    → IsHole max_order res s xs
behind-IsHole res s xs is below pos = record {
  heap = is;
  hole = λ j b h. inr (below j b h);
  not_null = ground (arith, pos);
}

first_address : (res : ℕ) → res + 0 * size_128k ≡ res
first_address res = omega arith

next_address : (res n : ℕ) → res + suc n * size_128k ≡ (res + size_128k) + n * size_128k
next_address res n = omega arith

one_more-IsStarted :
    (left res : ℕ) (s t s' : State) (xs zs ys : Orders)
    → IsFilled max_order res true s t xs zs
    → IsStarted left (res + size_128k) t s' zs ys
    → IsStarted (suc left) res s s' xs ys
one_more-IsStarted left res s t s' xs zs ys new rest = record {
  heap = rest.heap;
  grows =
      let e : 1 + left ≡ suc left = omega arith in
      subst (λ n. Grows n s s' xs ys) e (Grows-trans 1 left s t s' xs zs ys new.grows rest.grows);
  here = here;
  free = free;
  members = λ j a h. older j a (rest.members j a h);
}
  where
    here : (n : ℕ) → n < suc left → has (res + n * size_128k) (ys max_order) ≡ true
    here zero lt = rw (first_address res) (rest.grows.stay max_order res new.own)
    here (suc n) lt = rw (next_address res n) (rest.here n (omega (arith, lt)))

    free : (n : ℕ) → n < suc left → (s'.memory (res + n * size_128k)).is_free ≡ true
    free zero lt =
        rw (first_address res) ((rest.grows.kept max_order res new.own).free_same ∙ new.free_is)
    free (suc n) lt = rw (next_address res n) (rest.free n (omega (arith, lt)))

    older :
        (j a : ℕ)
        → (has a (zs j) ≡ true)
          ⊎ ((j ≡ max_order) × (n : ℕ) × (n < left) × (a ≡ (res + size_128k) + n * size_128k))
        → (has a (xs j) ≡ true)
          ⊎ ((j ≡ max_order) × (n : ℕ) × (n < suc left) × (a ≡ res + n * size_128k))
    older j a (inr (e, n, lt, e')) =
        inr (e, suc n, omega (arith, lt), e' ∙ sym (next_address res n))
    older j a (inl h) = elim (new.members j a h) [
      | inl old ↦ inl old
      | inr same ↦ inr (same.0, 0, omega arith, same.1 ∙ sym (first_address res))
    ]

pub init_loop-IsStarted :
    (left fuel res : ℕ) (s : State) (xs : Orders)
    → IsHeap s xs
    → Below res xs
    → 1 ≤ res
    → length (xs max_order) + left ≤ fuel
    → (s' : State) × (ys : Orders) × (init_loop left fuel res s ≡ some s')
      × IsStarted left res s s' xs ys
unfolding init_loop
init_loop-IsStarted zero fuel res s xs is below pos le = (
  s,
  xs,
  refl,
  record {
    heap = is;
    grows = record {
      stay = λ j a h. h;
      kept = λ j a h. SameBlock-refl (s.memory a);
      started = refl;
      lengths = λ j. omega arith;
    };
    here = λ n lt. absurd (omega (arith, lt));
    free = λ n lt. absurd (omega (arith, lt));
    members = λ j a h. inl h;
  },
)
init_loop-IsStarted (suc left) fuel res s xs is below pos le =
    let (t, zs, e, new) =
      add_block-IsFilled fuel max_order res s xs (behind-IsHole res s xs is below pos) (omega arith)
        (omega (arith, le)) in
    let (s', ys, e', rest) =
      init_loop-IsStarted left fuel (res + size_128k) t zs new.heap
        (λ j b h. next_below j b (new.members j b h)) (omega arith)
        (omega (arith, le, new.grows.lengths max_order)) in
    (s', ys, rw (e, init_loop) e', one_more-IsStarted left res s t s' xs zs ys new rest)
  where
    next_below :
        (j b : ℕ)
        → (has b (xs j) ≡ true) ⊎ ((j ≡ max_order) × (b ≡ res))
        → b + blocks_sizes j ≤ res + size_128k
    next_below j b (inl h) = omega (arith, below j b h)
    next_below j b (inr (e, e')) = rw (e, e') (omega arith)

-- The first multiple of 128KB behind the address.
abbrev pub start_of : ℕ → ℕ
start_of pb = pb - pb % size_128k + size_128k

abbrev pub no_blocks : Orders
no_blocks j = []

-- The lists of no blocks.
abbrev pub emptied : State → State
emptied s = record s {
  first_malloc = false;
  md_list_arr = λ i. empty_list;
  mapped_list = empty_list;
}

emptied-IsHeap : (s : State) → IsHeap (emptied s) no_blocks
emptied-IsHeap s = record {
  lists = λ i. record { nodes = refl; ends = refl };
  blocks = λ i a h. ground (arith, h);
  apart = λ i j a b h h'. ground (arith, h);
}

first_initialise :
    (fuel pb : ℕ) (s : State)
    → s.first_malloc ≡ true
    → initialise fuel (some pb) s ≡ init_loop 32 fuel (start_of pb) (emptied s)
unfolding initialise
first_initialise fuel pb s first = rw first refl

pub initialise-IsStarted :
    (fuel pb : ℕ) (s : State)
    → s.first_malloc ≡ true
    → 32 ≤ fuel
    → (s' : State) × (ys : Orders) × (initialise fuel (some pb) s ≡ some s')
      × IsStarted 32 (start_of pb) (emptied s) s' no_blocks ys
initialise-IsStarted fuel pb s first le =
    let (s', ys, e, started) =
      init_loop-IsStarted 32 fuel (start_of pb) (emptied s) no_blocks (emptied-IsHeap s)
        (λ j b h. ground (arith, h)) (omega arith) (omega (arith, le)) in
    (s', ys, first_initialise fuel pb s first ∙ e, started)
