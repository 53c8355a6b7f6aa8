-- ===== src/Buddy/Prevs.antt =====
-- The `prev` links behind `addMD` and `delMD` of OS_HW4_234123/malloc_3.cpp.
use os.Prelude.{
  ℕ, ◌≡◌, refl, sym, ◌∙◌, subst, true, false, List, [], ◌∷◌, ◌++◌, arith, ◌==◌, ==_iff, ==_self,
  Bool-cases, inl, inr,
}
use os.Buddy.Lists.{nullptr, Memory, MdList, store, set_next, set_prev, link_md}
use os.Buddy.Order.{has, first_or, last_or, Linked, insert_md, has-append, back-Linked}

-- The same `prev` links.
abbrev pub SamePrevs : Memory → Memory → Type 0
SamePrevs m m' = (a : ℕ) → (m' a).prev ≡ (m a).prev

pub prev-set_next : (p q : ℕ) (m : Memory) → SamePrevs m (set_next p q m)
unfolding store
prev-set_next p q m a = elim (Bool-cases (a == p)) [
  | inl same ↦ rw same (rw ((==_iff a p).0 same) refl)
  | inr other ↦ rw other refl
]

prev-set_prev : (p q : ℕ) (m : Memory) → (set_prev p q m p).prev ≡ q
unfolding store
prev-set_prev p q m = rw (==_self p) refl

prev-set_prev_other :
    (p q a : ℕ) (m : Memory) → (a == p) ≡ false → (set_prev p q m a).prev ≡ (m a).prev
unfolding store
prev-set_prev_other p q a m other = rw other refl

-- The `prev` links behind the insertion of `md` between `front` and `back`. In front of the old head
-- the code sets none: the `prev` of the old head and that of `md` stay.
abbrev pub AddedPrevs : (md : ℕ) (front back : List ℕ) → Memory → Memory → Type 0
AddedPrevs md [] back m m' = SamePrevs m m'
AddedPrevs md (x ∷ f) [] m m' =
    ((m' md).prev ≡ last_or x f) × ((a : ℕ) → (a == md) ≡ false → (m' a).prev ≡ (m a).prev)
AddedPrevs md (x ∷ f) (z ∷ b) m m' =
    ((m' md).prev ≡ last_or x f)
    × ((m' z).prev ≡ md)
    × ((a : ℕ) → (a == md) ≡ false → (a == z) ≡ false → (m' a).prev ≡ (m a).prev)

-- Where `md` stands in the new list, and the `prev` links there.
pub record PrevsOfAdded (md : ℕ) (xs : List ℕ) (m m' : Memory) : Type 0 where
  pub front : List ℕ
  pub back : List ℕ
  pub whole : xs ≡ front ++ back
  pub inserted : insert_md md m xs ≡ front ++ md ∷ back
  pub prevs : AddedPrevs md front back m m'

-- The `prev` links behind the removal of `md`, of which `prev` is in front, and `back` behind.
abbrev pub DeletedPrevs : (md prev : ℕ) (back : List ℕ) → Memory → Memory → Type 0
DeletedPrevs md prev [] m m' =
    ((m' md).prev ≡ nullptr) × ((a : ℕ) → (a == md) ≡ false → (m' a).prev ≡ (m a).prev)
DeletedPrevs md prev (z ∷ b) m m' =
    ((m' md).prev ≡ nullptr)
    × ((m' z).prev ≡ prev)
    × ((a : ℕ) → (a == md) ≡ false → (a == z) ≡ false → (m' a).prev ≡ (m a).prev)

module _ (md : ℕ) (m : Memory) where
  pub link_md-AddedPrevs :
      (l : MdList) (front back : List ℕ) (y : ℕ) (ys : List ℕ)
      → y ∷ ys ≡ front ++ back
      → Linked m l.head (front ++ back)
      → has md (front ++ back) ≡ false
      → AddedPrevs md front back m
          (link_md md (first_or nullptr back, last_or nullptr front) (m, l)).0
  unfolding link_md
  link_md-AddedPrevs l [] [] y ys some h out = ground arith
  link_md-AddedPrevs l [] (z ∷ b) y ys some h out =
      let is_head : (z == l.head) ≡ true = rw h.0 (==_self z) in
      rw (h.1, is_head) (prev-set_next md l.head m)
  link_md-AddedPrevs l (x ∷ f) [] y ys some h out =
      let m1 = set_next (last_or x f) md m in
      (
        prev-set_prev md (last_or x f) m1,
        λ a other.
            prev-set_prev_other md (last_or x f) a m1 other ∙ prev-set_next (last_or x f) md m a,
      )
  link_md-AddedPrevs l (x ∷ f) (z ∷ b) y ys some h out =
      let m1 = set_next (last_or x f) md m in
      let m2 = set_prev md (last_or x f) m1 in
      let m3 = set_next md z m2 in
      let back = back-Linked m l.head (x ∷ f) (z ∷ b) h in
      let not_head : (z == l.head) ≡ false = rw h.0 (ground (arith, has-append x f (z ∷ b), h.2)) in
      let apart : (md == z) ≡ false = ground (arith, has-append md (x ∷ f) (z ∷ b), out) in
      rw (back.1, not_head)
        (
          prev-set_prev_other z md md m3 apart
              ∙ prev-set_next md z m2 md
              ∙ prev-set_prev md (last_or x f) m1,
          prev-set_prev z md m3,
          λ a other other'.
              prev-set_prev_other z md a m3 other'
              ∙ prev-set_next md z m2 a
              ∙ prev-set_prev_other md (last_or x f) a m1 other
              ∙ prev-set_next (last_or x f) md m a,
        )

  -- The links of `md` are cleared.
  abbrev cleared : Memory → Memory
  cleared m' = set_next md nullptr (set_prev md nullptr m')

  cleared_prev : (m' : Memory) (a : ℕ) → (a == md) ≡ false → (cleared m' a).prev ≡ (m' a).prev
  cleared_prev m' a other =
      prev-set_next md nullptr (set_prev md nullptr m') a
      ∙ prev-set_prev_other md nullptr a m' other

  cleared_own : (m' : Memory) → (cleared m' md).prev ≡ nullptr
  cleared_own m' =
      prev-set_next md nullptr (set_prev md nullptr m') md ∙ prev-set_prev md nullptr m'

  -- Where nothing is behind `md`.
  pub last-DeletedPrevs :
      (prev : ℕ) (m' : Memory)
      → SamePrevs m m'
      → DeletedPrevs md prev [] m (set_next md nullptr (set_prev md nullptr m'))
  last-DeletedPrevs prev m' same = (cleared_own m', λ a other. cleared_prev m' a other ∙ same a)

  -- Where the node at `nxt`, which is `z`, is behind `md`.
  pub followed-DeletedPrevs :
      (prev nxt z : ℕ) (b : List ℕ) (m' : Memory)
      → nxt ≡ z
      → (z == md) ≡ false
      → SamePrevs m m'
      → DeletedPrevs md prev
          (z ∷ b)
          m
          (set_next md nullptr (set_prev md nullptr (set_prev nxt prev m')))
  followed-DeletedPrevs prev nxt z b m' e apart same =
      subst
        (λ q.
          DeletedPrevs md prev (z ∷ b) m
            (set_next md nullptr (set_prev md nullptr (set_prev q prev m'))))
        (sym e) at_z
    where
      at_z :
          DeletedPrevs md prev
            (z ∷ b)
            m
            (set_next md nullptr (set_prev md nullptr (set_prev z prev m')))
      at_z = (
        cleared_own (set_prev z prev m'),
        cleared_prev (set_prev z prev m') z apart ∙ prev-set_prev z prev m',
        λ a other other'.
            cleared_prev (set_prev z prev m') a other
            ∙ prev-set_prev_other z prev a m' other'
            ∙ same a,
      )
