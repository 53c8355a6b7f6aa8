-- ===== src/Buddy/Merge.antt =====
-- The step of the loops of `sfree` and `srealloc` of OS_HW4_234123/malloc_3.cpp that makes one block
-- of two.
use os.Prelude.{
  ℕ, suc, ◌+◌, ◌≤◌, ◌<◌, ◌≡◌, sym, ap, subst, ◌∙◌, ◌⊎◌, inl, inr, Bool, true, false, some, arith,
  length, ◌==◌, if◌then◌else◌,
}
use os.Buddy.Lists.{◌>>=◌, nullptr, del_md}
use os.Buddy.{State, max_order, blocks_sizes, on_list}
use os.Buddy.Order.{has}
use os.Buddy.Kept.{SameBlock, SameBlock-trans, SameBlocks}
use os.Buddy.Heap.{Orders, Separate, IsHeap, IsHole, inside_out, size_suc, size_positive}
use os.Buddy.HeapLists.{kept-IsBlock, add_md-IsAdded}
use os.Buddy.HeapDelete.{IsRemoved, del_md-Removes}
use os.Buddy.Release.{merge}
use os.Buddy.Whole.{
  whole_memory, whole_memory_other, whole_memory_first, whole_memory-IsHeap, whole-IsBlock,
}

-- One of the halves is `first`, and the other one stands behind it.
abbrev pub AreNext : (i first md neigh_md : ℕ) → Type 0
AreNext i first md neigh_md =
    ((first ≡ md) × (neigh_md ≡ md + blocks_sizes i))
    ⊎ ((first ≡ neigh_md) × (md ≡ neigh_md + blocks_sizes i))

-- Neither half is in a list, and no block overlaps them.
record AreTaken (i first md neigh_md : ℕ) (s s' : State) (xs ys : Orders) : Type 0 where
  hole : IsHole (i + 1) first s' ys
  members :
      (j a : ℕ)
      → has a (ys j) ≡ true
      → (has a (xs j) ≡ true) × ((a == md) ≡ false) × ((a == neigh_md) ≡ false)
  others :
      (j a : ℕ)
      → has a (xs j) ≡ true
      → (a == md) ≡ false
      → (a == neigh_md) ≡ false
      → has a (ys j) ≡ true
  alone : (s'.memory first).next ≡ nullptr
  same : SameBlocks s.memory s'.memory
  started : s'.first_malloc ≡ s.first_malloc
  shorter : (j : ℕ) → length (ys j) ≤ length (xs j)

-- A block that overlaps none of two neighbouring halves overlaps no part of the whole.
whole_Separate :
    (i a j b : ℕ) → Separate i a j b → Separate i (a + blocks_sizes i) j b → Separate (i + 1) a j b
whole_Separate i a j b front back = let e : i + 1 ≡ suc i = omega arith in rw e (join front back)
  where
    join : Separate i a j b → Separate i (a + blocks_sizes i) j b → Separate (suc i) a j b
    join (inl le) (inl le') = inl (omega (arith, le', size_suc i))
    join (inr le) back = inr le
    join (inl le) (inr le') = absurd (omega (arith, le, le', size_positive j))

taken_hole :
    (i first md neigh_md j b : ℕ)
    → AreNext i first md neigh_md
    → Separate i md j b
    → Separate i neigh_md j b
    → Separate (i + 1) first j b
taken_hole i first md neigh_md j b (inl (e, e')) h h' =
    rw e (whole_Separate i md j b h (subst (λ p. Separate i p j b) e' h'))
taken_hole i first md neigh_md j b (inr (e, e')) h h' =
    rw e (whole_Separate i neigh_md j b h' (subst (λ p. Separate i p j b) e' h))

apart_halves : (i first md neigh_md : ℕ) → AreNext i first md neigh_md → (md == neigh_md) ≡ false
apart_halves i first md neigh_md (inl (e, e')) = ground (arith, e', size_positive i)
apart_halves i first md neigh_md (inr (e, e')) = ground (arith, e', size_positive i)

take_both :
    (fuel i first md neigh_md : ℕ) (s : State) (xs : Orders)
    → IsHeap s xs
    → has md (xs i) ≡ true
    → has neigh_md (xs i) ≡ true
    → AreNext i first md neigh_md
    → i ≤ max_order
    → length (xs i) < fuel
    → (t : State) × (ys : Orders) × (on_list i (del_md fuel md) s
          >>= on_list i (del_md fuel neigh_md)
        ≡ some t)
      × AreTaken i first md neigh_md s t xs ys
take_both fuel i first md neigh_md s xs is h h' next order lt =
    let other = apart_halves i first md neigh_md next in
    let other' : (neigh_md == md) ≡ false = ground (arith, other) in
    let (t, zs, e, one) = del_md-Removes fuel i md s xs is h order lt in
    let (u, ys, e', two) =
      del_md-Removes fuel i neigh_md t zs one.hole.heap (one.others i neigh_md h' other') order
        (omega (arith, lt, one.shorter i)) in
    let links = two.links_same md one.hole.not_null (out i md s t xs zs one) other ∙ one.alone in
    (
      u,
      ys,
      rw e e',
      record {
        hole = record {
          heap = two.hole.heap;
          hole = λ j b k.
              taken_hole i first md neigh_md j b next (one.hole.hole j b (two.members j b k).0)
                (two.hole.hole j b k);
          not_null =
              first_of (λ p. (p == nullptr) ≡ false) next one.hole.not_null two.hole.not_null;
        };
        members = λ j a k.
            let (k', ne) = two.members j a k in
            let (k'', ne') = one.members j a k' in (k'', ne', ne);
        others = λ j a k ne ne'. two.others j a (one.others j a k ne) ne';
        alone = first_of (λ p. (u.memory p).next ≡ nullptr) next links two.alone;
        same = λ a. SameBlock-trans _ _ _ (one.same a) (two.same a);
        started = two.started ∙ one.started;
        shorter = λ j. omega (arith, one.shorter j, two.shorter j);
      },
    )
  where
    first_of : (P : ℕ → Type 0) → AreNext i first md neigh_md → P md → P neigh_md → P first
    first_of P (inl (e, e')) p q = subst P (sym e) p
    first_of P (inr (e, e')) p q = subst P (sym e) q

    out :
        (i md : ℕ) (s t : State) (xs zs : Orders) → IsRemoved i md s t xs zs → has md (zs i) ≡ false
    out i md s t xs zs one =
        inside_out i md md i t zs one.hole (omega arith) (omega (arith, size_positive i))

-- The halves are one block, of the next order; the other blocks stay in their lists.
pub record IsMerged (i first md neigh_md : ℕ) (free : Bool) (s s' : State) (xs ys : Orders)
    : Type 0 where
  pub heap : IsHeap s' ys
  pub own : has first (ys (i + 1)) ≡ true
  pub free_is : (s'.memory first).is_free ≡ (if free then true else (s.memory first).is_free)
  pub members :
      (j a : ℕ)
      → has a (ys j) ≡ true
      → ((has a (xs j) ≡ true) × ((a == md) ≡ false) × ((a == neigh_md) ≡ false))
        ⊎ ((j ≡ i + 1) × (a ≡ first))
  pub stay :
      (j a : ℕ)
      → has a (xs j) ≡ true
      → (a == md) ≡ false
      → (a == neigh_md) ≡ false
      → has a (ys j) ≡ true
  pub kept : (a : ℕ) → (a == first) ≡ false → SameBlock (s.memory a) (s'.memory a)
  pub started : s'.first_malloc ≡ s.first_malloc
  pub lengths : (j : ℕ) → length (ys j) ≤ suc (length (xs j))

-- Of two blocks of an order below the last in the lists of blocks that do not overlap, the second of
-- them behind the first, and with fuel for the lists, one block of the next order is made, at the
-- first address, and put into the list of that order; the blocks still do not overlap, every other one
-- stays in its list with its metadata but for the links, and there is no new one.
pub merge-IsMerged :
    (fuel first md neigh_md i : ℕ) (free : Bool) (s : State) (xs : Orders)
    → IsHeap s xs
    → has md (xs i) ≡ true
    → has neigh_md (xs i) ≡ true
    → AreNext i first md neigh_md
    → i < max_order
    → ((j : ℕ) → length (xs j) < fuel)
    → (s' : State) × (ys : Orders) × (merge fuel first md neigh_md i free s ≡ some s')
      × IsMerged i first md neigh_md free s s' xs ys
unfolding merge
merge-IsMerged fuel first md neigh_md i free s xs is h h' next order lt =
    let (t, zs, e, taken) =
      take_both fuel i first md neigh_md s xs is h h' next (omega (arith, order)) (lt i) in
    let u = record t { memory = whole_memory first free t.memory } in
    let old : has first (xs i) ≡ true = first_of (λ p. has p (xs i) ≡ true) next h h' in
    let block = kept-IsBlock i first _ _ (taken.same first) (is.blocks i first old) in
    let first_md = whole_memory_first first free t.memory in
    let (s', ys, e', added) =
      add_md-IsAdded fuel (i + 1) first u zs (hole t zs taken)
        (whole-IsBlock i first free t.memory block) (ap (λ d. d.next) first_md ∙ taken.alone)
        (omega (arith, order)) (omega (arith, lt (i + 1), taken.shorter (i + 1))) in
    (
      s',
      ys,
      rw (e, merge) e',
      record {
        heap = added.heap;
        own = added.own;
        free_is =
            (added.same first).free_same
            ∙ ap (λ d. d.is_free) first_md
            ∙ ap (λ b. if free then true else b) (taken.same first).free_same;
        members = λ j a k. elim (added.members j a k) [
          | inl other ↦ inl (taken.members j a other)
          | inr whole ↦ inr whole
        ];
        stay = λ j a k ne ne'. added.old j a (taken.others j a k ne ne');
        kept = λ a ne. SameBlock-trans _ _ _ (taken.same a) (
            subst (λ d. SameBlock d (s'.memory a)) (whole_memory_other first a free t.memory ne)
              (added.same a));
        started = added.started ∙ taken.started;
        lengths = λ j. omega (arith, added.longer j, taken.shorter j);
      },
    )
  where
    first_of : (P : ℕ → Type 0) → AreNext i first md neigh_md → P md → P neigh_md → P first
    first_of P (inl (e, e')) p q = subst P (sym e) p
    first_of P (inr (e, e')) p q = subst P (sym e) q

    hole :
        (t : State) (zs : Orders)
        → AreTaken i first md neigh_md s t xs zs
        → IsHole (i + 1) first (record t { memory = whole_memory first free t.memory }) zs
    hole t zs taken = record {
      heap =
          whole_memory-IsHeap first free t zs
            (λ j.
              inside_out (i + 1) first first j t zs taken.hole (omega arith)
                (omega (arith, size_positive (i + 1))))
            taken.hole.heap;
      hole = taken.hole.hole;
      not_null = taken.hole.not_null;
    }
