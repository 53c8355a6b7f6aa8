-- ===== src/Buddy/Search.antt =====
-- `findFreeSizedBlock` of OS_HW4_234123/malloc_3.cpp on the list of one order.
use os.Prelude.{
  ℕ, zero, suc, ◌≤◌, ◌<◌, ◌≡◌, refl, sym, subst, ◌⊎◌, inl, inr, Bool, true, false, ◌&&◌, some, List,
  [], ◌∷◌, arith, length, leb, ◌==◌, ==_iff, Bool-cases,
}
use os.Buddy.Lists.{nullptr, MallocMetadata, Memory, store, set_free, find_free_sized_block}
use os.Buddy.{State}
use os.Buddy.Order.{has, Linked, frame}
use os.Buddy.Heap.{Orders, IsBlock, IsHeap, moved-IsBlock}

-- A free block of the list that is large enough.
pub record Fits (size a : ℕ) (m : Memory) (xs : List ℕ) : Type 0 where
  pub member : has a xs ≡ true
  pub free_is : (m a).is_free ≡ true
  pub enough : size ≤ (m a).size

-- Every block of the list is in use or too small.
abbrev pub NoneFits : (size : ℕ) → Memory → List ℕ → Type 0
NoneFits size m xs = (a : ℕ) → has a xs ≡ true → ((m a).is_free && leb size (m a).size) ≡ false

-- What the search in a list returns.
abbrev pub Search : (fuel size p : ℕ) → Memory → List ℕ → Type 0
Search fuel size p m xs =
    ((find_free_sized_block fuel size p m ≡ some (nullptr, m)) × NoneFits size m xs)
    ⊎ ((a : ℕ) × (find_free_sized_block fuel size p m ≡ some ((m a).address, set_free a false m))
        × Fits size a m xs)

further :
    (fuel size x : ℕ) (m : Memory) (xs : List ℕ)
    → (x == nullptr) ≡ false
    → ((m x).is_free && leb size (m x).size) ≡ false
    → Search fuel size (m x).next m xs
    → Search (suc fuel) size x m (x ∷ xs)
unfolding find_free_sized_block
further fuel size x m xs not_null other (inl (e, none_fits)) = inl (
  rw (not_null, other) e,
  λ a h. elim (Bool-cases (a == x)) [
    | inl here ↦ rw ((==_iff a x).0 here) other
    | inr there ↦ none_fits a (ground (arith, h, there))
  ],
)
further fuel size x m xs not_null other (inr (a, e, fits)) = inr (
  a,
  rw (not_null, other) e,
  record { member = ground (arith, fits.member); free_is = fits.free_is; enough = fits.enough },
)

pub find_free_sized_block-Search :
    (fuel size p : ℕ) (m : Memory) (xs : List ℕ)
    → Linked m p xs
    → length xs < fuel
    → Search fuel size p m xs
unfolding find_free_sized_block
find_free_sized_block-Search zero size p m xs h lt = absurd (omega (arith, lt))
find_free_sized_block-Search (suc fuel) size p m [] h lt = inl (rw h refl, λ a i. ground arith)
find_free_sized_block-Search (suc fuel) size p m (x ∷ xs) (e, not_null, once, rest) lt =
    subst (λ p. Search (suc fuel) size p m (x ∷ xs)) (sym e)
      (elim (Bool-cases ((m x).is_free && leb size (m x).size)) [
        | inl fits ↦ inr (
          x,
          rw (not_null, fits) refl,
          record {
            member = ground arith;
            free_is = ground (arith, fits);
            enough = ground (arith, fits);
          },
        )
        | inr other ↦
            further fuel size x m xs not_null other
              (find_free_sized_block-Search fuel size (m x).next m xs rest (omega (arith, lt)))
      ])

-- The metadata but for `is_free`.
pub free_other : (p a : ℕ) (b : Bool) (m : Memory) → (a == p) ≡ false → set_free p b m a ≡ m a
unfolding store
free_other p a b m other = rw other refl

pub free_here : (p : ℕ) (b : Bool) (m : Memory) → set_free p b m p ≡ record (m p) { is_free = b }
unfolding store
free_here p b m = let same : (p == p) ≡ true = ground arith in rw same refl

free_same :
    (p a : ℕ) (b : Bool) (m : Memory) (P : MallocMetadata → Type 0)
    → P (m a)
    → P (record (m a) { is_free = b })
    → P (set_free p b m a)
unfolding store
free_same p a b m P old new = elim (Bool-cases (a == p)) [
  | inl here ↦ rw here (subst (λ q. P (record (m q) { is_free = b })) ((==_iff a p).0 here) new)
  | inr other ↦ rw other old
]

-- A block becomes free or in use.
pub set_free-IsHeap :
    (p : ℕ) (b : Bool) (s : State) (xs : Orders)
    → IsHeap s xs
    → IsHeap (record s { memory = set_free p b s.memory }) xs
set_free-IsHeap p b s xs is = record {
  lists = λ j. record {
    nodes =
        frame s.memory (set_free p b s.memory) _ (xs j)
          (λ a h. free_same p a b s.memory (λ d. d.next ≡ (s.memory a).next) refl refl)
          (is.lists j).nodes;
    ends = (is.lists j).ends;
  };
  blocks = λ j a h.
      free_same p a b s.memory (IsBlock j a) (is.blocks j a h)
        (moved-IsBlock j a (s.memory a) _ (is.blocks j a h) refl refl refl);
  apart = is.apart;
}
