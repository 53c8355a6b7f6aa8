-- ===== src/Buddy/Sizes.antt =====
-- `findSizeIndexInList` of OS_HW4_234123/malloc_3.cpp on the sizes of blocks.
use os.Prelude.{
  ℕ, zero, suc, ◌+◌, ◌-◌, ◌≤◌, ◌<◌, ◌≡◌, refl, subst, true, false, some, arith, ◌==◌, ==_self,
  Bool-cases, inl, inr,
}
use os.Buddy.{max_order, size_128k, blocks_sizes, size_index_loop, find_size_index_in_list}
use os.Buddy.Heap.{size_suc, size_positive, size_le}

size_less : (j i : ℕ) → j < i → blocks_sizes j < blocks_sizes i
size_less j i lt =
    let e : (i - suc j) + suc j ≡ i = omega (arith, lt) in
    let le : blocks_sizes (suc j) ≤ blocks_sizes i =
      subst (λ k. blocks_sizes (suc j) ≤ blocks_sizes k) e (size_le (suc j) (i - suc j)) in
    omega (arith, le, size_suc j, size_positive j)

other_size : (j i : ℕ) → j < i → (blocks_sizes j == blocks_sizes i) ≡ false
other_size j i lt = ground (arith, size_less j i lt)

index_from :
    (left j i : ℕ) → j ≤ i → i < j + left → size_index_loop left j (blocks_sizes i) ≡ some i
unfolding size_index_loop
index_from zero j i le lt = absurd (omega (arith, le, lt))
index_from (suc left) j i le lt = elim (Bool-cases (j == i)) [
  | inl here ↦
      let e : j ≡ i = ground (arith, here) in
      rw e (
        let same : (blocks_sizes i == blocks_sizes i) ≡ true = ==_self (blocks_sizes i) in
        rw same refl)
  | inr other ↦
      let before : j < i = ground (arith, other, le) in
      rw (other_size j i before)
        (index_from left (j + 1) i (omega (arith, before)) (omega (arith, lt)))
]

-- The order of a size is found.
pub find_size_index_in_list_lem :
    (i : ℕ) → i ≤ max_order → find_size_index_in_list (blocks_sizes i) ≡ some i
unfolding find_size_index_in_list
find_size_index_in_list_lem i le = index_from 11 0 i (omega arith) (omega (arith, le))

-- Below the last order, a size is less than 128KB.
pub size_below : (i : ℕ) → i < max_order → blocks_sizes i < size_128k
size_below i lt = size_less i 10 lt

pub size_bound : (i : ℕ) → i ≤ max_order → blocks_sizes i ≤ size_128k
size_bound i le =
    let e : (10 - i) + i ≡ 10 = omega (arith, le) in
    subst (λ k. blocks_sizes i ≤ blocks_sizes k) e (size_le i (10 - i))
