-- ===== src/Smash/Line/Trim.antt =====
-- `_ltrim`, `_rtrim` and `_trim` of OS_HW1_234123/Commands.cpp.
use os.Prelude.{
  ℕ, ◌≡◌, refl, ap, ◌∙◌, true, false, Option, none, some, [], ◌∷◌, ◌++◌, arith, Bool-cases, inl,
  inr, if◌then◌else◌,
}
use os.Smash.Types.{Text}
use os.Smash.Line.{
  is_white, next, before_end, text_from, text_to, first_not_white, last_not_white, ltrim, rtrim,
  trim,
}

abbrev pub AllWhite : Text → Type 0
AllWhite [] = Unit {0}
AllWhite (c ∷ s) = (is_white c ≡ true) × AllWhite s

-- The text has no white space in front, or none behind.
abbrev pub StartsClean : Text → Type 0
StartsClean [] = Unit {0}
StartsClean (c ∷ s) = is_white c ≡ false

abbrev pub EndsClean : Text → Type 0
EndsClean [] = Unit {0}
EndsClean (c ∷ []) = is_white c ≡ false
EndsClean (c ∷ d ∷ s) = EndsClean (d ∷ s)

text_from_next : (c : ℕ) (s : Text) (o : Option ℕ) → text_from (c ∷ s) (next o) ≡ text_from s o
text_from_next c s none = refl
text_from_next c s (some i) = refl

ltrim_white : (c : ℕ) (s : Text) → is_white c ≡ true → ltrim (c ∷ s) ≡ ltrim s
unfolding ltrim
ltrim_white c s white = rw (white, ltrim) (text_from_next c s (first_not_white s))

ltrim_clean : (s : Text) → StartsClean s → ltrim s ≡ s
unfolding ltrim
ltrim_clean [] h = refl
ltrim_clean (c ∷ s) h = rw (h, ltrim)

ltrim_nil : ltrim [] ≡ []
unfolding ltrim
ltrim_nil = refl

ltrim_parts :
    (s : Text) → (front : Text) × (s ≡ front ++ ltrim s) × AllWhite front × StartsClean (ltrim s)
ltrim_parts [] = rw ltrim_nil ([], refl, tt, tt)
ltrim_parts (c ∷ s) = elim (Bool-cases (is_white c)) [
  | inl white ↦
      let (front, whole, all, clean) = ltrim_parts s in
      rw (ltrim_white c s white) (c ∷ front, ap (λ t. c ∷ t) whole, (white, all), clean)
  | inr other ↦ rw (ltrim_clean (c ∷ s) other) ([], refl, tt, other)
]

-- What `rtrim` does with one more character in front.
abbrev rtrim_step : ℕ → Text → Text
rtrim_step c [] = if is_white c then [] else c ∷ []
rtrim_step c (d ∷ t) = c ∷ d ∷ t

text_to_step :
    (c d : ℕ) (s : Text) (o : Option ℕ)
    → text_to (c ∷ d ∷ s) (before_end c o) ≡ rtrim_step c (text_to (d ∷ s) o)
text_to_step c d s none = ground arith
text_to_step c d s (some i) = refl

rtrim_cons : (c : ℕ) (s : Text) → rtrim (c ∷ s) ≡ rtrim_step c (rtrim s)
unfolding rtrim
rtrim_cons c [] = ground arith
rtrim_cons c (d ∷ s) = text_to_step c d s (last_not_white (d ∷ s))

rtrim_nil : rtrim [] ≡ []
unfolding rtrim
rtrim_nil = refl

-- A text, its trimmed part and the white space behind.
record RightParts (s t : Text) : Type 0 where
  back : Text
  whole : s ≡ t ++ back
  white : AllWhite back
  clean : EndsClean t

rtrim_step_parts : (c : ℕ) (s t : Text) → RightParts s t → RightParts (c ∷ s) (rtrim_step c t)
rtrim_step_parts c s [] p = elim (Bool-cases (is_white c)) [
  | inl white ↦ rw white (record {
    back = c ∷ p.back;
    whole = ap (λ t. c ∷ t) p.whole;
    white = (white, p.white);
    clean = tt;
  })
  | inr other ↦
      rw other
        (record { back = p.back; whole = ap (λ t. c ∷ t) p.whole; white = p.white; clean = other })
]
rtrim_step_parts c s (d ∷ t) p = record {
  back = p.back;
  whole = ap (λ t. c ∷ t) p.whole;
  white = p.white;
  clean = p.clean;
}

rtrim_parts : (s : Text) → RightParts s (rtrim s)
rtrim_parts [] = rw rtrim_nil (record { back = []; whole = refl; white = tt; clean = tt })
rtrim_parts (c ∷ s) = rw (rtrim_cons c s) (rtrim_step_parts c s (rtrim s) (rtrim_parts s))

rtrim_step_starts : (c : ℕ) (t : Text) → is_white c ≡ false → StartsClean (rtrim_step c t)
rtrim_step_starts c [] h = rw h h
rtrim_step_starts c (d ∷ t) h = h

rtrim_starts : (s : Text) → StartsClean s → StartsClean (rtrim s)
rtrim_starts [] h = rw rtrim_nil tt
rtrim_starts (c ∷ s) h = rw (rtrim_cons c s) (rtrim_step_starts c (rtrim s) h)

rtrim_clean : (s : Text) → EndsClean s → rtrim s ≡ s
rtrim_clean [] h = rtrim_nil
rtrim_clean (c ∷ []) h = rtrim_cons c [] ∙ rw (rtrim_nil, h)
rtrim_clean (c ∷ d ∷ s) h = rtrim_cons c (d ∷ s) ∙ rw (rtrim_clean (d ∷ s) h)

-- What `_trim` cuts off is white space, in front and behind, and what it leaves neither starts nor
-- ends with any.
pub trim_lem :
    (s : Text)
    → (front : Text) × (back : Text) × (s ≡ front ++ (trim s ++ back))
      × AllWhite front
      × AllWhite back
      × StartsClean (trim s)
      × EndsClean (trim s)
unfolding trim
trim_lem s =
    let (front, whole, white, clean) = ltrim_parts s in
    let p = rtrim_parts (ltrim s) in
    (
      front,
      p.back,
      whole ∙ ap (λ t. front ++ t) p.whole,
      white,
      p.white,
      rtrim_starts (ltrim s) clean,
      p.clean,
    )

pub trim_clean : (s : Text) → StartsClean s → EndsClean s → trim s ≡ s
unfolding trim
trim_clean s starts ends = rw (ltrim_clean s starts) (rtrim_clean s ends)

-- A second `_trim` changes nothing.
pub trim-trim : (s : Text) → trim (trim s) ≡ trim s
trim-trim s =
    let (front, back, whole, white, white', starts, ends) = trim_lem s in
    trim_clean (trim s) starts ends

ltrim-append : (front s : Text) → AllWhite front → ltrim (front ++ s) ≡ ltrim s
ltrim-append [] s h = refl
ltrim-append (c ∷ front) s h = ltrim_white c (front ++ s) h.0 ∙ ltrim-append front s h.1

rtrim_white : (back : Text) → AllWhite back → rtrim back ≡ []
rtrim_white [] h = rtrim_nil
rtrim_white (c ∷ back) h = rtrim_cons c back ∙ rw (rtrim_white back h.1, h.0)

rtrim-append : (s back : Text) → EndsClean s → AllWhite back → rtrim (s ++ back) ≡ s
rtrim-append [] back ends white = rtrim_white back white
rtrim-append (c ∷ []) back ends white = rtrim_cons c back ∙ rw (rtrim_white back white, ends)
rtrim-append (c ∷ d ∷ s) back ends white =
    rtrim_cons c (d ∷ s ++ back) ∙ rw (rtrim-append (d ∷ s) back ends white)

StartsClean-append : (c : ℕ) (s back : Text) → StartsClean (c ∷ s) → StartsClean (c ∷ s ++ back)
StartsClean-append c s back h = h

-- The only text without white space at its ends between white space in front and behind.
pub trim_between :
    (front : Text) (c : ℕ) (s back : Text)
    → AllWhite front
    → StartsClean (c ∷ s)
    → EndsClean (c ∷ s)
    → AllWhite back
    → trim (front ++ (c ∷ s ++ back)) ≡ c ∷ s
unfolding trim
trim_between front c s back white starts ends white' =
    rw (ltrim-append front (c ∷ s ++ back) white, ltrim_clean (c ∷ s ++ back) starts)
      (rtrim-append (c ∷ s) back ends white')
