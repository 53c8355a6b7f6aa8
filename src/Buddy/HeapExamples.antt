-- ===== src/Buddy/HeapExamples.antt =====
-- A heap of three blocks, and the theorems on the blocks of OS_HW4_234123/malloc_3.cpp applied to it.
use os.Prelude.{
  ℕ, ◌+◌, ◌*◌, List, ◌<◌, ◌≡◌, refl, ◌⊎◌, inl, inr, true, false, none, some, [], ◌∷◌, arith, length,
  ltb, ◌==◌, Bool-cases, if◌then◌else◌,
}
use os.Buddy.Lists.{nullptr, Memory, empty_list}
use os.Buddy.{State, xor, smalloc}
use os.Buddy.Order.{has}
use os.Buddy.Insert.{IsList}
use os.Buddy.Heap.{Orders, Separate, IsHeap}
use os.Buddy.Exact.{Outcome}
use os.Buddy.Start.{IsStarted, emptied, no_blocks}
use os.Buddy.Calls.{smallocs, AreGiven, smallocs-AreGiven}
use os.Buddy.Smalloc.{Given, smalloc_outcome, smalloc_first}
use os.Buddy.Release.{sfree}
use os.Buddy.Free.{Buddies, in_use, half_free, IsFreed}
use os.Buddy.Sfree.{Covers, sfree-IsFreed}

-- Blocks of 1024 bytes: a free one at 4096, and behind it two in use.
abbrev three_blocks : Memory
three_blocks p = record {
  size = 1024;
  is_free = p == 4096;
  next = if p == 4096 then 5120 else if p == 5120 then 6144 else nullptr;
  prev = nullptr;
  address = p + 48;
  is_mmap = false;
}

abbrev three_orders : Orders
three_orders i = if i == 3 then 4096 ∷ 5120 ∷ 6144 ∷ [] else []

abbrev heap_of_three : State
heap_of_three = record {
  memory = three_blocks;
  bytes = λ a. 0;
  md_list_arr = λ i. if i == 3 then record { head = 4096; tail = 6144 } else empty_list;
  mapped_list = empty_list;
  first_malloc = false;
}

abbrev not_started : State
not_started = record heap_of_three { first_malloc = true }

abbrev OneOfThree : (a : ℕ) → Type 0
OneOfThree a = (a ≡ 4096) ⊎ (a ≡ 5120) ⊎ (a ≡ 6144)

one_of_three : (i a : ℕ) → has a (three_orders i) ≡ true → (i ≡ 3) × OneOfThree a
one_of_three i a h = ground (arith, h)

three_lists : (i : ℕ) → IsList three_blocks (heap_of_three.md_list_arr i) (three_orders i)
three_lists i = elim (Bool-cases (i == 3)) [
  | inl here ↦ rw here (record {
    nodes = (refl, refl, refl, (refl, refl, refl, (refl, refl, refl, refl)));
    ends = refl;
  })
  | inr other ↦ rw other (record { nodes = refl; ends = refl })
]

three_apart : (a b : ℕ) → OneOfThree a → OneOfThree b → (a ≡ b) ⊎ Separate 3 a 3 b
three_apart a b one one' = elim (Bool-cases (a == b)) [
  | inl same ↦ inl (ground (arith, same))
  | inr other ↦ elim (Bool-cases (ltb a b)) [
    | inl below ↦ inr (inl (ground (arith, one, one', below)))
    | inr above ↦ inr (inr (ground (arith, one, one', above, other)))
  ]
]

three-IsHeap : IsHeap heap_of_three three_orders
three-IsHeap = record {
  lists = three_lists;
  blocks = λ i a h.
      rw ((one_of_three i a h).0) (record { size_is = refl; address_is = refl; mmap_is = refl });
  apart = λ i j a b h h'.
      let (e, one) = one_of_three i a h in
      let (e', one') = one_of_three j b h' in
      rw (e, e')
        (elim (three_apart a b one one') [ inl same ↦ inl (refl, same) | inr apart ↦ inr apart ]);
}

three_lengths : (j : ℕ) → length (three_orders j) + 11 < 15
three_lengths j = elim (Bool-cases (j == 3)) [
  | inl here ↦ rw here (omega arith)
  | inr other ↦ rw other (omega arith)
]

-- The block at 5120 is freed: the one at 4096 is its other half, and the neighbour of both is in use.
buddies : Buddies heap_of_three three_orders 3 5120 4 4096
unfolding xor
buddies =
    half_free 3 5120 4096 4 4096 (omega arith) refl refl (inr (refl, refl))
      (in_use 4 4096 3 (omega arith) refl (inl (omega arith)) refl)

sfree-IsFreed_example :
    (u : State) × (zs : Orders) × (sfree 15 5168 heap_of_three ≡ some u)
    × IsFreed 4 4096 heap_of_three u three_orders zs
    × Covers 3 5120 4 4096
sfree-IsFreed_example =
    sfree-IsFreed 15 3 5120 4 4096 heap_of_three three_orders three-IsHeap refl refl (omega arith)
      buddies three_lengths

smalloc_outcome_example :
    Outcome 200 heap_of_three three_orders (smalloc 15 none none 152 heap_of_three)
smalloc_outcome_example =
    smalloc_outcome 15 none none 152 heap_of_three three_orders refl refl (omega arith) three-IsHeap
      three_lengths

smalloc_first_example :
    (t : State) × (xs : Orders) × IsStarted 32 262144 (emptied not_started) t no_blocks xs
    × Given 58 t xs (smalloc 44 (some 131072) none 10 not_started)
smalloc_first_example =
    smalloc_first 44 131072 none 10 not_started refl refl (omega arith) (omega arith)

three_long_lengths : (j : ℕ) → length (three_orders j) + 11 * 3 < 40
three_long_lengths j = elim (Bool-cases (j == 3)) [
  | inl here ↦ rw here (omega arith)
  | inr other ↦ rw other (omega arith)
]

smallocs-AreGiven_example :
    (ps : List ℕ) × (s' : State) × (ys : Orders) × (smallocs 40 (152 ∷ 600 ∷ 10 ∷ []) heap_of_three
      ≡ some (ps, s'))
    × AreGiven heap_of_three s' three_orders ys ps
smallocs-AreGiven_example =
    smallocs-AreGiven 40 (152 ∷ 600 ∷ 10 ∷ []) heap_of_three three_orders refl refl three-IsHeap
      three_long_lengths
