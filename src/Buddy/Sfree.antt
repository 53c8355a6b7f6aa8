-- ===== src/Buddy/Sfree.antt =====
-- `sfree` of OS_HW4_234123/malloc_3.cpp on a block in use.
use os.Prelude.{
  ℕ, zero, suc, ◌+◌, ◌-◌, ◌≤◌, ◌<◌, ◌≡◌, refl, subst, ◌∙◌, true, false, some, arith, length, ltb,
  ◌==◌, le→ltb, inl, inr,
}
use os.Buddy.Lists.{nullptr, md_size}
use os.Buddy.{State, max_order, size_128k, blocks_sizes}
use os.Buddy.Order.{has}
use os.Buddy.Heap.{Orders, IsBlock, IsHeap, size_suc}
use os.Buddy.Release.{free_block, sfree}
use os.Buddy.Sizes.{size_bound}
use os.Buddy.Merge.{AreNext}
use os.Buddy.Free.{Buddies, whole, in_use, half_free, IsFreed}
use os.Buddy.Combine.{continued-IsFreed, set_free-IsFreed, free_block-continued}

-- The merged block covers the one that is freed.
abbrev pub Covers : (i r k last : ℕ) → Type 0
Covers i r k last = (last ≤ r) × (r + blocks_sizes i ≤ last + blocks_sizes k)

first_Covers :
    (i first r n k last : ℕ) → AreNext i first r n → Covers (i + 1) first k last → Covers i r k last
first_Covers i first r n k last next (le, le') =
    let e : i + 1 ≡ suc i = omega arith in
    by_order next le (subst (λ j. first + blocks_sizes j ≤ last + blocks_sizes k) e le')
  where
    by_order :
        AreNext i first r n
        → last ≤ first
        → first + blocks_sizes (suc i) ≤ last + blocks_sizes k
        → Covers i r k last
    by_order (inl (e, e')) le le' = (omega (arith, e, le), omega (arith, e, le', size_suc i))
    by_order (inr (e, e')) le le' =
        (omega (arith, e, e', le), omega (arith, e, e', le', size_suc i))

Buddies-Covers :
    (s : State) (xs : Orders) (i r k last : ℕ) → Buddies s xs i r k last → Covers i r k last
Buddies-Covers s xs _ _ _ _ (whole r) = (omega arith, omega arith)
Buddies-Covers s xs _ _ _ _ (in_use i r j below h apart used) = (omega arith, omega arith)
Buddies-Covers s xs _ _ _ _ (half_free i r first k last below h free next more) =
    first_Covers i first r _ k last next (Buddies-Covers s xs (i + 1) first k last more)

sfree_used :
    (fuel i md : ℕ) (s : State)
    → IsBlock i md (s.memory md)
    → (s.memory md).is_free ≡ false
    → i ≤ max_order
    → sfree fuel (md + md_size) s ≡ free_block fuel md s
unfolding sfree
sfree_used fuel i md s is used le =
    let some_pointer : (md + md_size == nullptr) ≡ false = ground arith in
    let back : md + md_size - md_size ≡ md = omega arith in
    let not_mapped : ltb size_128k (blocks_sizes i) ≡ false =
      le→ltb size_128k (blocks_sizes i) (size_bound i le) in
    rw (some_pointer, back, used, is.mmap_is) (rw (is.size_is, not_mapped) refl)

-- The block at `md` of a heap of linked lists of blocks that do not overlap is in use. Each neighbour
-- that is looked at, up to the order `k`, is free, of the same order and the other half, or the last
-- one is in use or the order is the last; and there is fuel for the longest list and eleven more
-- steps. Then `sfree` of its data ends with a free block of the order `k` that covers it; blocks still
-- do not overlap, and every block outside it stays in its list with its metadata but for the links.
pub sfree-IsFreed :
    (fuel i md k last : ℕ) (s : State) (xs : Orders)
    → IsHeap s xs
    → has md (xs i) ≡ true
    → (s.memory md).is_free ≡ false
    → i ≤ max_order
    → Buddies s xs i md k last
    → ((j : ℕ) → length (xs j) + 11 < fuel)
    → (u : State) × (zs : Orders) × (sfree fuel (md + md_size) s ≡ some u)
      × IsFreed k last s u xs zs
      × Covers i md k last
sfree-IsFreed zero i md k last s xs is h used le buddies lt = absurd (omega (arith, lt 0))
sfree-IsFreed (suc fuel) i md k last s xs is h used le buddies lt =
    let (u, zs, e, freed) =
      continued-IsFreed s xs (suc fuel) (suc fuel) i md k last _ xs buddies
        (set_free-IsFreed i md s xs is h) (omega (arith, lt 0)) (λ j. omega (arith, lt j)) in
    (
      u,
      zs,
      sfree_used (suc fuel) i md s (is.blocks i md h) used le ∙ free_block-continued fuel md s ∙ e,
      freed,
      Buddies-Covers s xs i md k last buddies,
    )
