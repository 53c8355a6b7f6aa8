-- ===== src/Buddy/Order.antt =====
-- Lists that are linked in the memory, and the loop of `addMD` of OS_HW4_234123/malloc_3.cpp.
use os.Prelude.{
  ℕ, zero, suc, ◌<◌, ◌≡◌, refl, ap, subst, Bool, true, false, ◌||◌, some, List, [], ◌∷◌, ◌++◌,
  arith, length, ltb, ◌==◌, if◌then◌else◌, Bool-cases, inl, inr,
}
use os.Buddy.Lists.{nullptr, Memory, add_loop}

-- Is it one of the nodes?
abbrev pub has : (at : ℕ) → List ℕ → Bool
has at [] = false
has at (x ∷ xs) = (at == x) || has at xs

abbrev pub first_or : ℕ → List ℕ → ℕ
first_or d [] = d
first_or d (x ∷ xs) = x

abbrev pub last_or : ℕ → List ℕ → ℕ
last_or d [] = d
last_or d (x ∷ xs) = last_or x xs

-- The distinct nodes `xs` follow one another from `p`, up to NULL.
abbrev pub Linked : Memory → ℕ → List ℕ → Type 0
Linked m p [] = p ≡ nullptr
Linked m p (x ∷ xs) =
    (p ≡ x) × ((x == nullptr) ≡ false) × (has x xs ≡ false) × Linked m (m x).next xs

-- The list with a node in front of the first one of a greater address.
abbrev pub insert_md : (md : ℕ) → Memory → List ℕ → List ℕ
insert_md md m [] = md ∷ []
insert_md md m (x ∷ xs) =
    let rest = insert_md md m xs in
    if ltb (m md).address (m x).address then md ∷ x ∷ xs else x ∷ rest

-- The memory keeps the links of these nodes.
abbrev pub SameNext : List ℕ → Memory → Memory → Type 0
SameNext xs m m' = (a : ℕ) → has a xs ≡ true → (m' a).next ≡ (m a).next

pub frame :
    (m m' : Memory) (p : ℕ) (xs : List ℕ) → SameNext xs m m' → Linked m p xs → Linked m' p xs
frame m m' p [] same h = h
frame m m' p (x ∷ xs) same (e, not_null, once, rest) = (
  e,
  not_null,
  once,
  rw (same x (ground arith)) (frame m m' (m x).next xs (λ a i. same a (ground arith)) rest),
)

pub Linked-first : (m : Memory) (p : ℕ) (xs : List ℕ) → Linked m p xs → p ≡ first_or nullptr xs
Linked-first m p [] h = h
Linked-first m p (x ∷ xs) h = h.0

pub back-Linked :
    (m : Memory) (p : ℕ) (front back : List ℕ)
    → Linked m p (front ++ back)
    → Linked m (first_or nullptr back) back
back-Linked m p [] back h = subst (λ q. Linked m q back) (Linked-first m p back h) h
back-Linked m p (x ∷ front) back (e, not_null, once, rest) =
    back-Linked m (m x).next front back rest

pub has_last : (x : ℕ) (front back : List ℕ) → has (last_or x front) (x ∷ front ++ back) ≡ true
has_last x [] back = ground arith
has_last x (y ∷ front) back = let h = has_last y front back in ground arith

pub has-append : (at : ℕ) (xs ys : List ℕ) → has at (xs ++ ys) ≡ (has at xs || has at ys)
has-append at [] ys = refl
has-append at (x ∷ xs) ys = ground (arith, has-append at xs ys)

pub ne_of_has : (a b : ℕ) (xs : List ℕ) → has a xs ≡ true → has b xs ≡ false → (a == b) ≡ false
ne_of_has a b [] i out = cc
ne_of_has a b (x ∷ xs) i out = ground (arith, ne_of_has a b xs)

pub other_of_has : (a b : ℕ) (xs : List ℕ) → has a xs ≡ true → has b xs ≡ false → (b == a) ≡ false
other_of_has a b [] i out = cc
other_of_has a b (x ∷ xs) i out = ground (arith, other_of_has a b xs)

-- The node in front of `back` is not in it.
pub last_apart :
    (m : Memory) (p x : ℕ) (front back : List ℕ)
    → Linked m p (x ∷ front ++ back)
    → has (last_or x front) back ≡ false
last_apart m p x [] back (e, not_null, once, rest) = once
last_apart m p x (y ∷ front) back (e, not_null, once, rest) =
    last_apart m (m x).next y front back rest

-- A node between `front` and `back`, to which the last node of `front` leads.
pub relinked :
    (m m' : Memory) (md p x : ℕ) (front back : List ℕ)
    → Linked m p (x ∷ front ++ back)
    → has md (x ∷ front ++ back) ≡ false
    → (m' (last_or x front)).next ≡ md
    → ((a : ℕ) → (a == last_or x front) ≡ false → (a == md) ≡ false → (m' a).next ≡ (m a).next)
    → Linked m' md (md ∷ back)
    → Linked m' p (x ∷ front ++ md ∷ back)
relinked m m' md p x [] back (e, not_null, once, rest) out leads same h =
    (e, not_null, ground (arith, once, out), rw leads h)
relinked m m' md p x (y ∷ front) back (e, not_null, once, rest) out leads same h =
    let apart : (x == last_or y front) ≡ false =
      other_of_has (last_or y front) x (y ∷ front ++ back) (has_last y front back) once in
    let other : (x == md) ≡ false = ground (arith, out) in
    let out' : has md (y ∷ front ++ back) ≡ false = ground (arith, out) in
    (
      e,
      not_null,
      still_once x md (y ∷ front) back once other,
      rw (same x apart other) (relinked m m' md (m x).next y front back rest out' leads same h),
    )
  where
    still_once :
        (a b : ℕ) (xs ys : List ℕ)
        → has a (xs ++ ys) ≡ false
        → (a == b) ≡ false
        → has a (xs ++ b ∷ ys) ≡ false
    still_once a b xs ys h other = ground (arith, has-append a xs ys, has-append a xs (b ∷ ys))

-- Where the loop of `addMD` stops.
pub record Stop (fuel prev md nxt : ℕ) (m : Memory) (xs : List ℕ) : Type 0 where
  pub front : List ℕ
  pub back : List ℕ
  pub whole : xs ≡ front ++ back
  pub inserted : insert_md md m xs ≡ front ++ md ∷ back
  pub stops :
      add_loop fuel (m md).address nxt prev m ≡ some (first_or nullptr back, last_or prev front)

pub add_loop-Stop :
    (fuel prev md nxt : ℕ) (m : Memory) (xs : List ℕ)
    → Linked m nxt xs
    → length xs < fuel
    → Stop fuel prev md nxt m xs
unfolding add_loop
add_loop-Stop zero prev md nxt m xs h lt = absurd (omega (arith, lt))
add_loop-Stop (suc fuel) prev md nxt m [] h lt = record {
  front = [];
  back = [];
  whole = refl;
  inserted = refl;
  stops = rw h refl;
}
add_loop-Stop (suc fuel) prev md nxt m (x ∷ xs) (e, not_null, once, rest) lt =
    elim (Bool-cases (ltb (m md).address (m x).address)) [
      | inl less ↦ record {
        front = [];
        back = x ∷ xs;
        whole = refl;
        inserted = rw less;
        stops = rw (e, not_null, less, add_loop) refl;
      }
      | inr other ↦
          let r = add_loop-Stop fuel x md (m x).next m xs rest (omega (arith, lt)) in
          record {
            front = x ∷ r.front;
            back = r.back;
            whole = ap (λ l. x ∷ l) r.whole;
            inserted = rw other (ap (λ l. x ∷ l) r.inserted);
            stops = rw (e, not_null, other, add_loop) r.stops;
          }
    ]
