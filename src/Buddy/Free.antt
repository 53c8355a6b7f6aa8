-- ===== src/Buddy/Free.antt =====
-- `sfree` of OS_HW4_234123/malloc_3.cpp, where each neighbour that it reads is a block of the same order
-- or in use.
use os.Prelude.{ℕ, suc, ◌+◌, ◌<◌, ◌≡◌, ◌∙◌, sym, subst, inl, inr, true, false, arith, ltb, ◌==◌}
use os.Buddy.Lists.{Memory, md_size}
use os.Buddy.{State, max_order, blocks_sizes, xor}
use os.Buddy.Order.{has}
use os.Buddy.Kept.{SameBlock, SameBlock-trans}
use os.Buddy.Heap.{Orders, Separate, IsHeap, size_suc, size_positive}
use os.Buddy.Release.{lower}
use os.Buddy.Merge.{AreNext, IsMerged}

-- The address at which a block of the order looks for its neighbour.
abbrev pub neighbour : (i r : ℕ) → ℕ
neighbour i r = xor 64 r (blocks_sizes i)

-- A block of the order at `r` can be merged with neighbours that are whole, up to the order `k`.
pub data Buddies (s : State) (xs : Orders) : (i r k first : ℕ) → Type 0 where
  whole : (r : ℕ) → Buddies s xs 10 r 10 r
  in_use :
      (i r j : ℕ)
      → i < max_order
      → has (neighbour i r) (xs j) ≡ true
      → Separate i r j (neighbour i r)
      → (s.memory (neighbour i r)).is_free ≡ false
      → Buddies s xs i r i r
  half_free :
      (i r first k last : ℕ)
      → i < max_order
      → has (neighbour i r) (xs i) ≡ true
      → (s.memory (neighbour i r)).is_free ≡ true
      → AreNext i first r (neighbour i r)
      → Buddies s xs (i + 1) first k last
      → Buddies s xs i r k last

-- A free block at `r`, which covers what was there; the blocks that it does not overlap stay in their
-- lists, with their metadata but for the links.
pub record IsFreed (i r : ℕ) (s t : State) (xs ys : Orders) : Type 0 where
  pub heap : IsHeap t ys
  pub started : t.first_malloc ≡ s.first_malloc
  pub own : has r (ys i) ≡ true
  pub free_is : (t.memory r).is_free ≡ true
  pub stay : (j a : ℕ) → has a (xs j) ≡ true → Separate i r j a → has a (ys j) ≡ true
  pub kept :
      (j a : ℕ) → has a (xs j) ≡ true → Separate i r j a → SameBlock (s.memory a) (t.memory a)

pub Separate-other : (i r j a : ℕ) → Separate i r j a → (a == r) ≡ false
Separate-other i r j a (inl le) = ground (arith, le, size_positive i)
Separate-other i r j a (inr le) = ground (arith, le, size_positive j)

-- What lies apart from the whole lies apart from its halves.
pub halves_Separate :
    (i first r n j a : ℕ)
    → AreNext i first r n
    → Separate (i + 1) first j a
    → Separate i r j a × Separate i n j a
halves_Separate i first r n j a next apart =
    let e : i + 1 ≡ suc i = omega arith in by_order next (subst (λ k. Separate k first j a) e apart)
  where
    by_order :
        AreNext i first r n → Separate (suc i) first j a → Separate i r j a × Separate i n j a
    by_order (inl (e, e')) (inl le) =
        (inl (omega (arith, e, e', le, size_suc i)), inl (omega (arith, e, e', le, size_suc i)))
    by_order (inl (e, e')) (inr le) =
        (inr (omega (arith, e, e', le)), inr (omega (arith, e, e', le)))
    by_order (inr (e, e')) (inl le) =
        (inl (omega (arith, e, e', le, size_suc i)), inl (omega (arith, e, e', le, size_suc i)))
    by_order (inr (e, e')) (inr le) =
        (inr (omega (arith, e, e', le)), inr (omega (arith, e, e', le)))

pub next_Separate : (i first r n : ℕ) → AreNext i first r n → Separate i r i n
next_Separate i first r n (inl (e, e')) = inl (omega (arith, e'))
next_Separate i first r n (inr (e, e')) = inr (omega (arith, e'))

-- The lower half, by the addresses in the metadata.
pub lower_half_first :
    (i first r n : ℕ) (m : Memory)
    → AreNext i first r n
    → (m r).address ≡ r + md_size
    → (m n).address ≡ n + md_size
    → lower r n m ≡ first
lower_half_first i first r n m (inl (e, e')) own other =
    let not_lower : ltb (m n).address (m r).address ≡ false = ground (arith, own, other, e') in
    rw not_lower (sym e)
lower_half_first i first r n m (inr (e, e')) own other =
    let is_lower : ltb (m n).address (m r).address ≡ true =
      ground (arith, own, other, e', size_positive i) in
    rw is_lower (sym e)

-- One merge more.
pub merged-IsFreed :
    (i first r n : ℕ) (s t u : State) (xs ys zs : Orders)
    → AreNext i first r n
    → IsFreed i r s t xs ys
    → IsMerged i first r n true t u ys zs
    → IsFreed (i + 1) first s u xs zs
merged-IsFreed i first r n s t u xs ys zs next freed merged = record {
  heap = merged.heap;
  started = merged.started ∙ freed.started;
  own = merged.own;
  free_is = merged.free_is;
  stay = λ j a h apart.
      let (from_r, from_n) = halves_Separate i first r n j a next apart in
      merged.stay j a (freed.stay j a h from_r) (Separate-other i r j a from_r)
        (Separate-other i n j a from_n);
  kept = λ j a h apart.
      let (from_r, from_n) = halves_Separate i first r n j a next apart in
      SameBlock-trans _ _ _ (freed.kept j a h from_r)
        (merged.kept a (Separate-other (i + 1) first j a apart));
}
