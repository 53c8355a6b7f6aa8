-- ===== src/Buddy/Combine.antt =====
-- The loop of `sfree` of OS_HW4_234123/malloc_3.cpp, from the block that is freed up to the last merge.
use os.Prelude.{
  ℕ, zero, suc, ◌+◌, ◌≤◌, ◌<◌, ◌≡◌, refl, sym, ap, subst, ◌∙◌, inl, inr, true, false, Option, some,
  arith, length, ltb, ◌==◌, lt→ltb, Bool-cases, if◌then◌else◌,
}
use os.Buddy.Lists.{set_free}
use os.Buddy.{State, max_order, size_128k, blocks_sizes, find_neighboring_block}
use os.Buddy.Order.{has}
use os.Buddy.Kept.{SameBlock, SameBlock-refl}
use os.Buddy.Heap.{Orders, IsHeap}
use os.Buddy.Release.{set_memory, merge, lower, combine_loop, free_block}
use os.Buddy.Search.{set_free-IsHeap, free_here, free_other}
use os.Buddy.Sizes.{find_size_index_in_list_lem, size_below}
use os.Buddy.Merge.{merge-IsMerged}
use os.Buddy.Free.{
  neighbour, Buddies, whole, in_use, half_free, IsFreed, Separate-other, next_Separate,
  lower_half_first, merged-IsFreed,
}

-- What follows a merge, and what the loop starts with.
abbrev pub continued : (rounds fuel r : ℕ) → State → Option State
continued rounds fuel r t =
    if (t.memory r).size == size_128k
    then some t
    else combine_loop rounds fuel r (find_neighboring_block r t.memory) t

combine_loop_end :
    (rounds fuel r n : ℕ) (t : State)
    → (t.memory n).is_free ≡ false
    → combine_loop (suc rounds) fuel r n t ≡ some t
unfolding combine_loop
combine_loop_end rounds fuel r n t used = rw used refl

combine_loop-merge :
    (rounds fuel i first r n : ℕ) (t u : State)
    → (t.memory n).is_free ≡ true
    → (t.memory r).size ≡ blocks_sizes i
    → i < max_order
    → lower r n t.memory ≡ first
    → merge fuel first r n i true t ≡ some u
    → combine_loop (suc rounds) fuel r n t ≡ continued rounds fuel first u
unfolding combine_loop
combine_loop-merge rounds fuel i first r n t u free size lt first_is e =
    let below : ltb (blocks_sizes i) size_128k ≡ true =
      lt→ltb (blocks_sizes i) size_128k (size_below i lt) in
    let index = find_size_index_in_list_lem i (omega (arith, lt)) in
    rw (first_is, free, size, below, index, e) refl

-- Below the last order the loop looks at the neighbour.
continued_below :
    (rounds fuel i r : ℕ) (t : State)
    → (t.memory r).size ≡ blocks_sizes i
    → i < max_order
    → continued rounds fuel r t ≡ combine_loop rounds fuel r (neighbour i r) t
unfolding find_neighboring_block
continued_below rounds fuel i r t size lt =
    let below : (blocks_sizes i == size_128k) ≡ false = ground (arith, size_below i lt) in
    rw (size, below) refl

pub continued-IsFreed :
    (s : State) (xs : Orders) (rounds fuel i r k last : ℕ) (t : State) (ys : Orders)
    → Buddies s xs i r k last
    → IsFreed i r s t xs ys
    → 11 ≤ rounds + i
    → ((j : ℕ) → length (ys j) + 11 < fuel + i)
    → (u : State) × (zs : Orders) × (continued rounds fuel r t ≡ some u) × IsFreed k last s u xs zs
continued-IsFreed s xs rounds fuel _ _ _ _ t ys (whole r) freed le lt =
    (t, ys, rw ((freed.heap.blocks 10 r freed.own).size_is) refl, freed)
continued-IsFreed s xs zero fuel _ _ _ _ t ys (in_use i r j below h apart used) freed le lt =
    absurd (omega (arith, le, below))
continued-IsFreed s xs (suc rounds) fuel _ _ _ _ t ys (in_use i r j below h apart used) freed le
      lt =
    let size = (freed.heap.blocks i r freed.own).size_is in
    let still_used = (freed.kept j (neighbour i r) h apart).free_same ∙ used in
    (
      t,
      ys,
      continued_below (suc rounds) fuel i r t size below
          ∙ combine_loop_end rounds fuel r (neighbour i r) t still_used,
      freed,
    )
continued-IsFreed s xs zero fuel _ _ _ _ t ys (half_free i r first k last below h free next more)
      freed le lt =
    absurd (omega (arith, le, below))
continued-IsFreed s xs (suc rounds) fuel _ _ _ _ t ys
      (half_free i r first k last below h free next more) freed le lt =
    let n = neighbour i r in
    let apart = next_Separate i first r n next in
    let own = freed.heap.blocks i r freed.own in
    let there = freed.stay i n h apart in
    let other = freed.heap.blocks i n there in
    let (u, ws, e, merged) =
      merge-IsMerged fuel first r n i true t ys freed.heap freed.own there next below
        (λ j. omega (arith, lt j, below)) in
    let (v, zs, e', done) =
      continued-IsFreed s xs rounds fuel (i + 1) first k last u ws more
        (merged-IsFreed i first r n s t u xs ys ws next freed merged) (omega (arith, le))
        (λ j. omega (arith, lt j, merged.lengths j)) in
    (
      v,
      zs,
      continued_below (suc rounds) fuel i r t own.size_is below
          ∙ combine_loop-merge rounds fuel i first r n t u
              ((freed.kept i n h apart).free_same ∙ free) own.size_is below
              (lower_half_first i first r n t.memory next own.address_is other.address_is) e
          ∙ e',
      done,
    )

-- The block is free, and nothing else has changed.
pub set_free-IsFreed :
    (i md : ℕ) (s : State) (xs : Orders)
    → IsHeap s xs
    → has md (xs i) ≡ true
    → IsFreed i md s (set_memory (set_free md true s.memory) s) xs xs
set_free-IsFreed i md s xs is own = record {
  heap = set_free-IsHeap md true s xs is;
  own = own;
  started = refl;
  free_is = ap (λ d. d.is_free) (free_here md true s.memory);
  stay = λ j a h apart. h;
  kept = λ j a h apart.
      subst (λ d. SameBlock (s.memory a) d)
        (sym (free_other md a true s.memory (Separate-other i md j a apart)))
        (SameBlock-refl (s.memory a));
}

-- Whether the neighbour is free is tested in front of the loop, too.
pub free_block-continued :
    (fuel res : ℕ) (s : State)
    → free_block (suc fuel) res s
      ≡ continued (suc fuel) (suc fuel) res (set_memory (set_free res true s.memory) s)
unfolding free_block
free_block-continued fuel res s =
    let t = set_memory (set_free res true s.memory) s in
    let n = find_neighboring_block res t.memory in
    let same_size : (t.memory res).size ≡ (s.memory res).size =
      ap (λ d. d.size) (free_here res true s.memory) in
    rw same_size (elim (Bool-cases ((t.memory n).is_free)) [
      | inl free ↦ rw free refl
      | inr used ↦ rw (used, combine_loop_end fuel (suc fuel) res n t used) refl
    ])
