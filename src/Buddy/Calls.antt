-- ===== src/Buddy/Calls.antt =====
-- Programs that call `smalloc` of OS_HW4_234123/malloc_3.cpp again and again.
use os.Prelude.{
  ℕ, ◌+◌, ◌*◌, ◌≤◌, ◌<◌, ◌≡◌, refl, sym, ap, ◌∙◌, ◌⊎◌, inl, inr, Bool, true, false, ◌&&◌, not,
  Option, none, some, List, [], ◌∷◌, arith, length, leb, ◌==◌, ==_iff, Bool-cases,
}
use mathlib.Core.Bool.{true≢false}
use os.Buddy.Lists.{◌>>=◌, nullptr, md_size}
use os.Buddy.{State, size_128k, invalid_size, smalloc}
use os.Buddy.Order.{has}
use os.Buddy.Heap.{Orders, IsHeap}
use os.Buddy.Take.{IsAllocated}
use os.Buddy.Smalloc.{smalloc_outcome}

-- Calls with these sizes, one after the other: the pointers that they return.
unfoldable pub smallocs : (fuel : ℕ) → List ℕ → State → Option (List ℕ × State)
smallocs fuel [] s = some ([], s)
smallocs fuel (size ∷ sizes) s =
    smalloc fuel none none size s
    >>= (λ r. smallocs fuel sizes r.1 >>= (λ t. some (r.0 ∷ t.0, t.1)))

abbrev pub are_small : List ℕ → Bool
are_small [] = true
are_small (size ∷ sizes) =
    not (invalid_size size) && leb (md_size + size) size_128k && are_small sizes

-- No pointer but NULL is there twice.
abbrev pub AllDistinct : List ℕ → Type 0
AllDistinct [] = Unit {0}
AllDistinct (p ∷ ps) = ((p ≡ nullptr) ⊎ (has p ps ≡ false)) × AllDistinct ps

-- The blocks that are in use.
abbrev pub InUse : State → Orders → (j a : ℕ) → Type 0
InUse s xs j a = (has a (xs j) ≡ true) × ((s.memory a).is_free ≡ false)

-- The pointers to blocks that are not in use before, and what they leave.
pub record AreGiven (s s' : State) (xs ys : Orders) (ps : List ℕ) : Type 0 where
  pub heap : IsHeap s' ys
  pub distinct : AllDistinct ps
  pub fresh : (j a : ℕ) → InUse s xs j a → has (a + md_size) ps ≡ false
  pub still : (j a : ℕ) → InUse s xs j a → InUse s' ys j a

-- A call that returned NULL, in front of others.
null-AreGiven :
    (s s' : State) (xs ys : Orders) (ps : List ℕ)
    → AreGiven s s' xs ys ps
    → AreGiven s s' xs ys (nullptr ∷ ps)
null-AreGiven s s' xs ys ps given = record {
  heap = given.heap;
  distinct = (inl refl, given.distinct);
  fresh = λ j a used.
      let some_pointer : (a + md_size == nullptr) ≡ false = ground arith in
      rw some_pointer (given.fresh j a used);
  still = given.still;
}

stays-InUse :
    (k md j a : ℕ) (s t : State) (xs zs : Orders)
    → IsAllocated k md s t xs zs
    → InUse s xs j a
    → ((a == md) ≡ false) × InUse t zs j a
stays-InUse k md j a s t xs zs new (h, used) = elim (Bool-cases (a == md)) [
  | inl same ↦
      let e : a ≡ md = (==_iff a md).0 same in
      absurd (true≢false (sym new.was_free ∙ ap (λ b. (s.memory b).is_free) (sym e) ∙ used))
  | inr other ↦ (other, (new.stay j a h other, (new.kept j a h other).free_same ∙ used))
]

block-AreGiven :
    (k md : ℕ) (s t s' : State) (xs zs ys : Orders) (ps : List ℕ)
    → IsAllocated k md s t xs zs
    → AreGiven t s' zs ys ps
    → AreGiven s s' xs ys ((md + md_size) ∷ ps)
block-AreGiven k md s t s' xs zs ys ps new given = record {
  heap = given.heap;
  distinct = (inr (given.fresh k md (new.own, new.in_use)), given.distinct);
  fresh = λ j a used.
      let (other, later) = stays-InUse k md j a s t xs zs new used in
      let apart : (a + md_size == md + md_size) ≡ false = ground (arith, other) in
      rw apart (given.fresh j a later);
  still = λ j a used. given.still j a (stays-InUse k md j a s t xs zs new used).1;
}

-- On a heap of linked lists of blocks that do not overlap, behind the first call, with sizes that are
-- valid and at most 128KB with the metadata, and fuel for the longest list and eleven more steps for
-- each call: every call returns; no pointer but NULL is returned twice, and none to a block that was
-- in use before; the blocks that were in use still are, and blocks still do not overlap.
pub smallocs-AreGiven :
    (fuel : ℕ) (sizes : List ℕ) (s : State) (xs : Orders)
    → s.first_malloc ≡ false
    → are_small sizes ≡ true
    → IsHeap s xs
    → ((j : ℕ) → length (xs j) + 11 * length sizes < fuel)
    → (ps : List ℕ) × (s' : State) × (ys : Orders) × (smallocs fuel sizes s ≡ some (ps, s'))
      × AreGiven s s' xs ys ps
unfolding smallocs
smallocs-AreGiven fuel [] s xs later small is lt = (
  [],
  s,
  xs,
  refl,
  record { heap = is; distinct = tt; fresh = λ j a used. refl; still = λ j a used. used },
)
smallocs-AreGiven fuel (size ∷ sizes) s xs later small is lt =
    let valid : invalid_size size ≡ false = ground (arith, small) in
    let fits : md_size + size ≤ size_128k = ground (arith, small) in
    let others : are_small sizes ≡ true = ground (arith, small) in
    elim (smalloc_outcome fuel none none size s xs later valid fits is (λ j. omega (arith, lt j))) [
      | inl (e, too_small) ↦
          let (ps, s', ys, e', given) =
            smallocs-AreGiven fuel sizes s xs later others is (λ j. omega (arith, lt j)) in
          (nullptr ∷ ps, s', ys, rw (e, e') refl, null-AreGiven s s' xs ys ps given)
      | inr (k, md, t, zs, e, order, least, new) ↦
          let (ps, s', ys, e', given) =
            smallocs-AreGiven fuel sizes t zs (new.started ∙ later) others new.heap
              (λ j. omega (arith, lt j, new.lengths j)) in
          (
            (md + md_size) ∷ ps,
            s',
            ys,
            rw (e, e') refl,
            block-AreGiven k md s t s' xs zs ys ps new given,
          )
    ]
