-- ===== src/Buddy/SplitLoop.antt =====
-- The loop of `splitBlocks_ChallengeZero` of OS_HW4_234123/malloc_3.cpp.
use os.Prelude.{
  ℕ, zero, suc, ◌+◌, ◌-◌, ◌≤◌, ◌<◌, ◌≡◌, refl, sym, subst, ◌∙◌, ◌⊎◌, inl, inr, true, false, some,
  arith, length, ◌==◌,
}
use os.Buddy.{State, max_order, blocks_sizes, split_loop, split_blocks}
use os.Buddy.Order.{has}
use os.Buddy.Kept.{SameBlock, SameBlock-refl, SameBlock-trans}
use os.Buddy.Heap.{Orders, Separate, IsHeap, IsHole, size_suc, size_positive}
use os.Buddy.HeapDelete.{del_md-Removes}
use os.Buddy.Split.{Grows, Grows-trans, IsFilled, add_block-IsFilled, keep_first-IsFilled}

-- The upper half of a hole.
upper_half :
    (i md : ℕ) (s : State) (xs : Orders)
    → IsHole (suc i) md s xs
    → IsHole i (md + blocks_sizes i) s xs
upper_half i md s xs is = record {
  heap = is.heap;
  hole = λ j b h. upper j b (is.hole j b h);
  not_null = ground (arith, is.not_null);
}
  where
    upper : (j b : ℕ) → Separate (suc i) md j b → Separate i (md + blocks_sizes i) j b
    upper j b (inl le) = inl (omega (arith, le, size_suc i))
    upper j b (inr le) = inr (omega (arith, le))

-- What is left of it when the upper half is a block.
lower_half :
    (i md : ℕ) (s s' : State) (xs ys : Orders)
    → IsHole (suc i) md s xs
    → IsFilled i (md + blocks_sizes i) true s s' xs ys
    → IsHole i md s' ys
lower_half i md s s' xs ys is new = record {
  heap = new.heap;
  hole = λ j b h. lower j b (new.members j b h);
  not_null = is.not_null;
}
  where
    apart : (j b : ℕ) → Separate (suc i) md j b → Separate i md j b
    apart j b (inl le) = inl (omega (arith, le, size_suc i))
    apart j b (inr le) = inr le

    lower :
        (j b : ℕ)
        → (has b (xs j) ≡ true) ⊎ ((j ≡ i) × (b ≡ md + blocks_sizes i))
        → Separate i md j b
    lower j b (inl h) = apart j b (is.hole j b h)
    lower j b (inr (e, e')) = inl (omega (arith, e'))

-- What is left of a hole behind the loop, and what the loop leaves of the heap.
pub record IsSplit (k n md : ℕ) (s s' : State) (xs ys : Orders) : Type 0 where
  pub hole : IsHole k md s' ys
  pub grows : Grows n s s' xs ys
  pub first_same : SameBlock (s.memory md) (s'.memory md)

pub split_loop-IsSplit :
    (left fuel md i : ℕ) (s : State) (xs : Orders)
    → IsHole i md s xs
    → left ≤ i
    → i ≤ max_order
    → ((j : ℕ) → length (xs j) + left < fuel)
    → (s' : State) × (ys : Orders) × (split_loop left fuel md i s ≡ some s')
      × IsSplit (i - left) left md s s' xs ys
unfolding split_loop
split_loop-IsSplit zero fuel md i s xs is le order lt =
    let e : i - 0 ≡ i = omega arith in
    (
      s,
      xs,
      refl,
      record {
        hole = subst (λ k. IsHole k md s xs) (sym e) is;
        grows = record {
          stay = λ j a h. h;
          kept = λ j a h. SameBlock-refl (s.memory a);
          started = refl;
          lengths = λ j. omega arith;
        };
        first_same = SameBlock-refl (s.memory md);
      },
    )
split_loop-IsSplit (suc left) fuel md zero s xs is le order lt = absurd (omega (arith, le))
split_loop-IsSplit (suc left) fuel md (suc i) s xs is le order lt =
    let (t, zs, e, new) =
      add_block-IsFilled fuel i (md + blocks_sizes i) s xs (upper_half i md s xs is)
        (omega (arith, order)) (omega (arith, lt i)) in
    let (s', ys, e', split) =
      split_loop-IsSplit left fuel md i t zs (lower_half i md s t xs zs is new) (omega (arith, le))
        (omega (arith, order)) (λ j. omega (arith, lt j, new.grows.lengths j)) in
    let back : suc i - 1 ≡ i = omega arith in
    let one_more : 1 + left ≡ suc left = omega arith in
    let order_is : suc i - suc left ≡ i - left = omega arith in
    let apart : (md == md + blocks_sizes i) ≡ false =
      differs md (blocks_sizes i) (size_positive i) in
    (
      s',
      ys,
      rw (back, e, split_loop) e',
      record {
        hole = subst (λ k. IsHole k md s' ys) (sym order_is) split.hole;
        grows =
            subst (λ n. Grows n s s' xs ys) one_more
              (Grows-trans 1 left s t s' xs zs ys new.grows split.grows);
        first_same = SameBlock-trans _ _ _ (new.elsewhere md apart) split.first_same;
      },
    )
  where
    differs : (a n : ℕ) → 1 ≤ n → (a == a + n) ≡ false
    differs a n pos = ground arith

-- The block in use that a split ends with, and what it leaves of the heap.
pub record IsTaken (k n md : ℕ) (s s' : State) (xs ys : Orders) : Type 0 where
  pub heap : IsHeap s' ys
  pub own : has md (ys k) ≡ true
  pub stay : (j a : ℕ) → has a (xs j) ≡ true → (a == md) ≡ false → has a (ys j) ≡ true
  pub kept :
      (j a : ℕ) → has a (xs j) ≡ true → (a == md) ≡ false → SameBlock (s.memory a) (s'.memory a)
  pub started : s'.first_malloc ≡ s.first_malloc
  pub lengths : (j : ℕ) → length (ys j) ≤ length (xs j) + n

-- A block of the heap, split `n` times, at least once.
pub split_blocks-IsTaken :
    (n fuel md i : ℕ) (s : State) (xs : Orders)
    → IsHeap s xs
    → has md (xs i) ≡ true
    → suc n ≤ i
    → i ≤ max_order
    → ((j : ℕ) → length (xs j) + suc (suc n) < fuel)
    → (s' : State) × (ys : Orders) × (split_blocks fuel md i (suc n) s ≡ some s')
      × IsTaken (i - suc n) (suc (suc n)) md s s' xs ys
unfolding split_blocks
split_blocks-IsTaken n fuel md i s xs is member le order lt =
    let (t, zs, e, gone) = del_md-Removes fuel i md s xs is member order (omega (arith, lt i)) in
    let (u, ws, e', split) =
      split_loop-IsSplit (suc n) fuel md i t zs gone.hole le order
        (λ j. omega (arith, lt j, gone.shorter j)) in
    let positive : (suc n == 0) ≡ false = ground arith in
    let address =
      split.first_same.address_same
      ∙ (gone.same md).address_same
      ∙ (is.blocks i md member).address_is in
    let (s', ys, e'', first) =
      keep_first-IsFilled fuel (i - suc n) md u ws split.hole address (omega (arith, order)) (
        omega (arith, lt (i - suc n), gone.shorter (i - suc n), split.grows.lengths (i - suc n))) in
    (
      s',
      ys,
      rw (positive, e, e', split_blocks) e'',
      record {
        heap = first.heap;
        own = first.own;
        stay = λ j a h other. first.grows.stay j a (split.grows.stay j a (gone.others j a h other));
        kept = λ j a h other. SameBlock-trans _ _ _ (gone.same a) (
            SameBlock-trans _ _ _ (split.grows.kept j a (gone.others j a h other))
              (first.grows.kept j a (split.grows.stay j a (gone.others j a h other))));
        started = first.grows.started ∙ split.grows.started ∙ gone.started;
        lengths = λ j. omega (arith, gone.shorter j, split.grows.lengths j, first.grows.lengths j);
      },
    )
