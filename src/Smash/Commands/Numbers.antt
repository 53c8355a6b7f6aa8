-- ===== src/Smash/Commands/Numbers.antt =====
-- `std::stoi` as OS_HW1_234123/Commands.cpp uses it, and the conversion of a mode by `chmod`.
use os.Prelude.{
  ℕ, zero, suc, ◌+◌, ◌-◌, ◌*◌, ◌/◌, ◌%◌, ◌^◌, Bool, true, false, ◌&&◌, Option, none, some, [], ◌∷◌,
  ◌==◌, leb, ltb, if◌then◌else◌, length,
}
use os.Prelude.Int.{ℤ, pos, negsuc, ◌-ℤ◌}
use os.Smash.Types.{Text}
use os.Smash.Line.{is_white}

abbrev pub is_digit : ℕ → Bool
is_digit c = leb b'0' c && leb c b'9'

-- The leading digits: their value behind those of `value`, and their number.
unfoldable pub digits_value : (value : ℕ) → Text → ℕ
digits_value value [] = value
digits_value value (c ∷ s) =
    let rest = digits_value (value * 10 + (c - b'0')) s in if is_digit c then rest else value

unfoldable pub digits_count : Text → ℕ
digits_count [] = 0
digits_count (c ∷ s) = let rest = suc (digits_count s) in if is_digit c then rest else 0

abbrev pub signed_value : (is_negative : Bool) → ℕ → ℤ
signed_value false n = pos n
signed_value true n = pos 0 -ℤ pos n

-- The digits behind `skipped` characters: `none` where there are none, or where the number is not
-- one of `int`.
unfoldable pub stoi_digits : (is_negative : Bool) (skipped : ℕ) → Text → Option (ℤ × ℕ)
stoi_digits is_negative skipped s =
    if digits_count s == 0
    then none
    else if ltb (if is_negative then 2 ^ 31 else 2 ^ 31 - 1) (digits_value 0 s)
    then none
    else some (signed_value is_negative (digits_value 0 s), skipped + digits_count s)

unfoldable pub stoi_sign : (skipped : ℕ) → Text → Option (ℤ × ℕ)
stoi_sign skipped [] = none
stoi_sign skipped (c ∷ s) =
    if c == b'-'
    then stoi_digits true (skipped + 1) s
    else if c == b'+'
    then stoi_digits false (skipped + 1) s
    else stoi_digits false skipped (c ∷ s)

-- The number at the start of a text and the characters it takes, or `none` for an exception.
unfoldable pub stoi_from : (skipped : ℕ) → Text → Option (ℤ × ℕ)
stoi_from skipped [] = none
stoi_from skipped (c ∷ s) =
    let rest = stoi_from (skipped + 1) s in if is_white c then rest else stoi_sign skipped (c ∷ s)

unfoldable pub stoi : Text → Option (ℤ × ℕ)
stoi s = stoi_from 0 s

-- The number, if it takes the whole text.
unfoldable pub stoi_exact : Text → Option ℤ
stoi_exact s = elim (stoi s) [
  | none ↦ none
  | some (n, count) ↦ if count == length s then some n else none
]

-- The loop of `chmod` on a magnitude, with fuel for its rounds.
unfoldable pub mode_loop : (fuel pow decimal octal : ℕ) → Option ℕ
mode_loop zero pow decimal octal = none
mode_loop (suc fuel) pow decimal octal =
    let rest = mode_loop fuel (pow * 8) (decimal + (octal % 10) * pow) (octal / 8) in
    if octal == 0 then some decimal else rest

abbrev pub or_zero : Option ℕ → ℕ
or_zero none = 0
or_zero (some n) = n

-- The sign of a negative number is that of each of its digits.
unfoldable pub mode_of : ℤ → ℤ
mode_of (pos n) = pos (or_zero (mode_loop 32 1 0 n))
mode_of (negsuc n) = pos 0 -ℤ pos (or_zero (mode_loop 32 1 0 (suc n)))
