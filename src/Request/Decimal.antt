-- ===== src/Request/Decimal.antt =====
-- Numbers in the texts that `sprintf` makes in OS_HW3_234123/request.c, and how they are read.
use os.Prelude.{
  ℕ, zero, suc, ◌+◌, ◌-◌, ◌*◌, ◌/◌, ◌%◌, ◌≤◌, ◌<◌, ◌≡◌, refl, Bool, false, ◌||◌, List, [], ◌∷◌,
  ◌++◌, arith, length, ltb, ◌==◌, Bool-cases, inl, inr, if◌then◌else◌,
}

abbrev pub digit : ℕ → ℕ
digit n = b'0' + n

abbrev pub digits_from : (fuel n : ℕ) → List ℕ
digits_from zero n = digit n ∷ []
digits_from (suc fuel) n =
    let rest = digits_from fuel (n / 10) ++ digit (n % 10) ∷ [] in
    if ltb n 10 then digit n ∷ [] else rest

-- `%d` and `%lu`
unfoldable pub decimal : ℕ → List ℕ
decimal n = digits_from n n

abbrev pub zeros : ℕ → List ℕ
zeros zero = []
zeros (suc n) = b'0' ∷ zeros n

-- `%06lu`
unfoldable pub six_digits : ℕ → List ℕ
six_digits n = zeros (6 - length (decimal n)) ++ decimal n

-- The value of a text of digits.
abbrev pub value : (acc : ℕ) → List ℕ → ℕ
value acc [] = acc
value acc (c ∷ cs) = value (acc * 10 + (c - b'0')) cs

value-snoc : (acc c : ℕ) (cs : List ℕ) → value acc (cs ++ c ∷ []) ≡ value acc cs * 10 + (c - b'0')
value-snoc acc c [] = refl
value-snoc acc c (d ∷ ds) = value-snoc (acc * 10 + (d - b'0')) c ds

value-digits_from : (fuel n : ℕ) → n ≤ fuel → value 0 (digits_from fuel n) ≡ n
value-digits_from zero n le = omega (arith, le)
value-digits_from (suc fuel) n le = elim (Bool-cases (ltb n 10)) [
  | inl small ↦ rw small (omega arith)
  | inr large ↦
      let ten : 10 ≤ n = ground (arith, large) in
      let front : value 0 (digits_from fuel (n / 10)) ≡ n / 10 =
        value-digits_from fuel (n / 10) (omega (arith, le, ten)) in
      rw (large, value-snoc 0 (digit (n % 10)) (digits_from fuel (n / 10)), front) (omega arith)
]

-- The number is read as it was written.
pub value-decimal : (n : ℕ) → value 0 (decimal n) ≡ n
unfolding decimal
value-decimal n = value-digits_from n n (omega arith)

-- A byte in a text.
abbrev pub occurs : ℕ → List ℕ → Bool
occurs c [] = false
occurs c (x ∷ xs) = (x == c) || occurs c xs

pub occurs-append : (c : ℕ) (xs ys : List ℕ) → occurs c (xs ++ ys) ≡ (occurs c xs || occurs c ys)
occurs-append c [] ys = refl
occurs-append c (x ∷ xs) ys = ground (arith, occurs-append c xs ys)

occurs-digits_from : (c fuel n : ℕ) → c < b'0' → occurs c (digits_from fuel n) ≡ false
occurs-digits_from c zero n lt = ground arith
occurs-digits_from c (suc fuel) n lt = elim (Bool-cases (ltb n 10)) [
  | inl small ↦ rw small (ground arith)
  | inr large ↦
      rw
        (
          large,
          occurs-append c (digits_from fuel (n / 10)) (digit (n % 10) ∷ []),
          occurs-digits_from c fuel (n / 10) lt,
        )
        (ground arith)
]

-- No byte in front of the digits occurs in a number.
pub occurs-decimal : (c n : ℕ) → c < b'0' → occurs c (decimal n) ≡ false
unfolding decimal
occurs-decimal c n lt = occurs-digits_from c n n lt

occurs-zeros : (c n : ℕ) → c < b'0' → occurs c (zeros n) ≡ false
occurs-zeros c zero lt = refl
occurs-zeros c (suc n) lt = ground (arith, occurs-zeros c n lt)

pub occurs-six_digits : (c n : ℕ) → c < b'0' → occurs c (six_digits n) ≡ false
unfolding six_digits
occurs-six_digits c n lt =
    rw
      (
        occurs-append c (zeros (6 - length (decimal n))) (decimal n),
        occurs-zeros c _ lt,
        occurs-decimal c n lt,
      )
      refl
