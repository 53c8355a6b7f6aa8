-- ===== src/Buddy/Take.antt =====
-- What `findExactSizeBlock_ChallengeZero` of OS_HW4_234123/malloc_3.cpp does with a free block.
use os.Prelude.{
  ℕ, zero, suc, ◌+◌, ◌-◌, ◌≤◌, ◌<◌, ◌≡◌, refl, sym, ap, subst, true, false, Option, some, arith,
  length, ◌==◌,
}
use os.Buddy.Lists.{nullptr, Memory, md_size, set_free}
use os.Buddy.{State, max_order, split_blocks, take_block}
use os.Buddy.Order.{has}
use os.Buddy.Kept.{SameBlock, SameBlock-refl}
use os.Buddy.Heap.{Orders, IsHeap}
use os.Buddy.SplitLoop.{IsTaken, split_blocks-IsTaken}
use os.Buddy.Search.{Fits, set_free-IsHeap, free_other, free_here}

any_split-IsTaken :
    (n fuel md i : ℕ) (s : State) (xs : Orders)
    → IsHeap s xs
    → has md (xs i) ≡ true
    → n ≤ i
    → i ≤ max_order
    → ((j : ℕ) → length (xs j) + suc n < fuel)
    → (s' : State) × (ys : Orders) × (split_blocks fuel md i n s ≡ some s')
      × IsTaken (i - n) (suc n) md s s' xs ys
unfolding split_blocks
any_split-IsTaken zero fuel md i s xs is member le order lt =
    let e : i - 0 ≡ i = omega arith in
    (
      s,
      xs,
      refl,
      record {
        heap = is;
        own = subst (λ k. has md (xs k) ≡ true) (sym e) member;
        stay = λ j a h other. h;
        kept = λ j a h other. SameBlock-refl (s.memory a);
        started = refl;
        lengths = λ j. omega arith;
      },
    )
any_split-IsTaken (suc n) fuel md i s xs is member le order lt =
    split_blocks-IsTaken n fuel md i s xs is member le order lt

-- The block at `md`, which was free, is in use in the list of the order `k`; every other block stays
-- in its list, with its metadata but for the links.
pub record IsAllocated (k md : ℕ) (s s' : State) (xs ys : Orders) : Type 0 where
  pub heap : IsHeap s' ys
  pub own : has md (ys k) ≡ true
  pub was_free : (s.memory md).is_free ≡ true
  pub in_use : (s'.memory md).is_free ≡ false
  pub stay : (j a : ℕ) → has a (xs j) ≡ true → (a == md) ≡ false → has a (ys j) ≡ true
  pub kept :
      (j a : ℕ) → has a (xs j) ≡ true → (a == md) ≡ false → SameBlock (s.memory a) (s'.memory a)
  pub started : s'.first_malloc ≡ s.first_malloc
  pub lengths : (j : ℕ) → length (ys j) ≤ length (xs j) + suc max_order

take_block-some :
    (fuel i split_num md p : ℕ) (rest : Option (ℕ × State)) (s t : State) (m : Memory)
    → p ≡ md + md_size
    → split_blocks fuel md i split_num (record s { memory = m }) ≡ some t
    → take_block fuel i split_num rest s (p, m)
      ≡ some (md + md_size, record t { memory = set_free md false t.memory })
unfolding take_block
take_block-some fuel i split_num md p rest s t m address e =
    let some_block : (md + md_size == nullptr) ≡ false = ground arith in
    let back : md + md_size - md_size ≡ md = omega arith in rw (address, some_block, back, e) refl

free_SameBlock :
    (md a : ℕ) (s t : State)
    → (a == md) ≡ false
    → SameBlock (set_free md false s.memory a) (t.memory a)
    → SameBlock (s.memory a) (set_free md false t.memory a)
free_SameBlock md a s t other same =
    rw (free_other md a false t.memory other)
      (subst (λ d. SameBlock d (t.memory a)) (free_other md a false s.memory other) same)

pub take_block-IsAllocated :
    (fuel size i split_num md : ℕ) (rest : Option (ℕ × State)) (s : State) (xs : Orders)
    → IsHeap s xs
    → Fits size md s.memory (xs i)
    → split_num ≤ i
    → i ≤ max_order
    → ((j : ℕ) → length (xs j) + suc max_order < fuel)
    → (s' : State) × (ys : Orders) × (take_block fuel i split_num rest s
          ((s.memory md).address, set_free md false s.memory)
        ≡ some (md + md_size, s'))
      × IsAllocated (i - split_num) md s s' xs ys
take_block-IsAllocated fuel size i split_num md rest s xs is fits le order lt =
    let used = record s { memory = set_free md false s.memory } in
    let (t, ys, e, taken) =
      any_split-IsTaken split_num fuel md i used xs (set_free-IsHeap md false s xs is) fits.member
        le order (λ j. omega (arith, lt j, le, order)) in
    (
      record t { memory = set_free md false t.memory },
      ys,
      take_block-some fuel i split_num md _ rest s t (set_free md false s.memory)
          (is.blocks i md fits.member).address_is e,
      record {
        heap = set_free-IsHeap md false t ys taken.heap;
        own = taken.own;
        was_free = fits.free_is;
        in_use = ap (λ d. d.is_free) (free_here md false t.memory);
        stay = taken.stay;
        kept = λ j a h other. free_SameBlock md a s t other (taken.kept j a h other);
        started = taken.started;
        lengths = λ j. omega (arith, taken.lengths j, le, order);
      },
    )
