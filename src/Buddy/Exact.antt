-- ===== src/Buddy/Exact.antt =====
-- `findExactSizeBlock_ChallengeZero` of OS_HW4_234123/malloc_3.cpp on the lists of all orders.
use os.Prelude.{
  ℕ, zero, suc, ◌+◌, ◌-◌, ◌≤◌, ◌<◌, ◌≡◌, refl, sym, subst, ◌⊎◌, inl, inr, true, Option, some, arith,
  length, leb, ◌==◌, Bool-cases, le→leb, lt→leb,
}
use os.Buddy.Lists.{nullptr, md_size}
use os.Buddy.{State, max_order, blocks_sizes, take_block, exact_loop, find_exact_size_block}
use os.Buddy.Order.{has}
use os.Buddy.Heap.{Orders, IsHeap, size_le}
use os.Buddy.Search.{NoneFits, find_free_sized_block-Search}
use os.Buddy.Take.{IsAllocated, take_block-IsAllocated}

-- The least order whose blocks are large enough.
abbrev pub IsLeast : (size k : ℕ) → Type 0
IsLeast size k = (size ≤ blocks_sizes k) × ((j : ℕ) → j < k → blocks_sizes j < size)

-- Below the order `i`, no free block is large enough.
abbrev pub TooSmall : (size i : ℕ) → State → Orders → Type 0
TooSmall size i s xs =
    (j a : ℕ) → j < i → has a (xs j) ≡ true → (s.memory a).is_free ≡ true → blocks_sizes j < size

-- NULL, where no free block is large enough, and nothing has changed; or a block that was free, of the
-- least order that is large enough.
abbrev pub Outcome : (size : ℕ) → State → Orders → Option (ℕ × State) → Type 0
Outcome size s xs r =
    ((r ≡ some (nullptr, s)) × TooSmall size 11 s xs)
    ⊎ ((k : ℕ) × (md : ℕ) × (s' : State) × (ys : Orders) × (r ≡ some (md + md_size, s'))
        × (k ≤ max_order)
        × IsLeast size k
        × IsAllocated k md s s' xs ys)

-- `i` and `split_num` in the loop.
record Counted (size i split_num : ℕ) : Type 0 where
  le : split_num ≤ i
  enough : (split_num ≡ 0) ⊎ (size ≤ blocks_sizes (i - split_num))
  least : (j : ℕ) → j < i - split_num → blocks_sizes j < size

count_large :
    (size i split_num : ℕ)
    → size ≤ blocks_sizes i
    → Counted size i split_num
    → Counted size (i + 1) (split_num + 1)
count_large size i n large c =
    let e : (i + 1) - (n + 1) ≡ i - n = omega (arith, c.le) in
    record {
      le = omega (arith, c.le);
      enough = inr (
          subst (λ k. size ≤ blocks_sizes k) (sym e)
            (elim c.enough [
              | inl none_yet ↦ rw none_yet (let e : i - 0 ≡ i = omega arith in rw e large)
              | inr le ↦ le
            ]));
      least = λ j lt. c.least j (omega (arith, lt, e));
    }

count_small :
    (size i split_num : ℕ)
    → blocks_sizes i < size
    → Counted size i split_num
    → Counted size (i + 1) split_num
count_small size i n small c =
    let none_yet = none_large c.enough in
    record {
      le = omega (arith, c.le);
      enough = inl none_yet;
      least = λ j lt. elim (Bool-cases (j == i)) [
        | inl here ↦ let e : j ≡ i = ground (arith, here) in rw e small
        | inr other ↦ c.least j (ground (arith, lt, other, none_yet))
      ];
    }
  where
    none_large : (n ≡ 0) ⊎ (size ≤ blocks_sizes (i - n)) → n ≡ 0
    none_large (inl e) = e
    none_large (inr le) =
        let e : n + (i - n) ≡ i = omega (arith, c.le) in
        let grown : blocks_sizes (i - n) ≤ blocks_sizes i =
          subst (λ k. blocks_sizes (i - n) ≤ blocks_sizes k) e (size_le (i - n) n) in
        absurd (omega (arith, le, grown, small))

-- One order more without a block.
next_small :
    (size i : ℕ) (s : State) (xs : Orders)
    → TooSmall size i s xs
    → ((a : ℕ) → has a (xs i) ≡ true → (s.memory a).is_free ≡ true → blocks_sizes i < size)
    → TooSmall size (i + 1) s xs
next_small size i s xs small this j a lt h free = elim (Bool-cases (j == i)) [
  | inl here ↦
      let e : j ≡ i = ground (arith, here) in
      rw e (this a (subst (λ k. has a (xs k) ≡ true) e h) free)
  | inr other ↦ small j a (ground (arith, lt, other)) h free
]

module _ (fuel size : ℕ) (s : State) (xs : Orders) (is : IsHeap s xs)
    (lt : (j : ℕ) → length (xs j) + suc max_order < fuel) where
  -- A free block of the order would have been found.
  searched_small :
      (i : ℕ)
      → size ≤ blocks_sizes i
      → NoneFits size s.memory (xs i)
      → (a : ℕ) → has a (xs i) ≡ true
      → (s.memory a).is_free ≡ true
      → blocks_sizes i < size
  searched_small i large none_fits a h free =
      let e = (is.blocks i a h).size_is in
      let fits : leb size (s.memory a).size ≡ true = rw e (le→leb size (blocks_sizes i) large) in
      ground (arith, none_fits a h, fits, free)

  step_large :
      (left i n : ℕ)
      → size ≤ blocks_sizes i
      → i ≤ max_order
      → Counted size i n
      → TooSmall size i s xs
      → (TooSmall size (i + 1) s xs
          → Outcome size s xs (exact_loop left fuel size (i + 1) (n + 1) s))
      → Outcome size s xs (exact_loop (suc left) fuel size i n s)
  unfolding exact_loop take_block
  step_large left i n large order c small rest =
      elim (find_free_sized_block-Search fuel size _ s.memory (xs i) (is.lists i).nodes
        (omega (arith, lt i))) [
          | inl (e, none_fits) ↦
              rw (le→leb size (blocks_sizes i) large, e)
                (rest (next_small size i s xs small (searched_small i large none_fits)))
          | inr (md, e, fits) ↦
              let (s', ys, e', allocated) =
                take_block-IsAllocated fuel size i n md
                  (exact_loop left fuel size (i + 1) (n + 1) s) s xs is fits c.le order lt in
              inr (
                i - n,
                md,
                s',
                ys,
                rw (le→leb size (blocks_sizes i) large, e) e',
                omega (arith, order),
                (enough i n large c.enough, c.least),
                allocated,
              )
        ]
    where
      enough :
          (i n : ℕ)
          → size ≤ blocks_sizes i
          → (n ≡ 0) ⊎ (size ≤ blocks_sizes (i - n))
          → size ≤ blocks_sizes (i - n)
      enough i n large (inl e) = let e' : i - 0 ≡ i = omega arith in rw (e, e') large
      enough i n large (inr le) = le

  step_small :
      (left i n : ℕ)
      → blocks_sizes i < size
      → TooSmall size i s xs
      → (TooSmall size (i + 1) s xs → Outcome size s xs (exact_loop left fuel size (i + 1) n s))
      → Outcome size s xs (exact_loop (suc left) fuel size i n s)
  unfolding exact_loop
  step_small left i n below small rest =
      rw (lt→leb size (blocks_sizes i) below)
        (rest (next_small size i s xs small (λ a h free. below)))

  exact_loop_outcome :
      (left i n : ℕ)
      → left + i ≡ 11
      → Counted size i n
      → TooSmall size i s xs
      → Outcome size s xs (exact_loop left fuel size i n s)
  unfolding exact_loop
  exact_loop_outcome zero i n orders c small =
      let e : i ≡ 11 = omega (arith, orders) in
      inl (refl, subst (λ i. TooSmall size i s xs) e small)
  exact_loop_outcome (suc left) i n orders c small = elim (Bool-cases (leb size (blocks_sizes i))) [
    | inl large ↦
        let le : size ≤ blocks_sizes i = ground (arith, large) in
        step_large left i n le (omega (arith, orders)) c small (
          exact_loop_outcome left (i + 1) (n + 1) (omega (arith, orders))
            (count_large size i n le c))
    | inr other ↦
        let below : blocks_sizes i < size = ground (arith, other) in
        step_small left i n below small
          (exact_loop_outcome left (i + 1) n (omega (arith, orders)) (count_small size i n below c))
  ]

  pub find_exact_size_block_outcome : Outcome size s xs (find_exact_size_block fuel size s)
  unfolding find_exact_size_block
  find_exact_size_block_outcome =
      exact_loop_outcome 11 0 0 (omega arith)
        (record { le = omega arith; enough = inl refl; least = λ j lt. absurd (omega (arith, lt)) })
        (λ j a lt h free. absurd (omega (arith, lt)))
