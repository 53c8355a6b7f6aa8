-- ===== src/Smash/Commands/Modes.antt =====
-- The fuel of the loop of `chmod` in OS_HW1_234123/Commands.cpp.
use os.Prelude.{
  ℕ, zero, suc, ◌+◌, ◌*◌, ◌/◌, ◌%◌, ◌^◌, ◌<◌, ◌≡◌, refl, true, some, arith, Bool-cases, inl, inr,
  ◌==◌,
}
use native.Mathlib.Numerals.{unary_clauses}
use os.Smash.Commands.Numbers.{mode_loop}

shrinks : (fuel octal : ℕ) → octal < 8 ^ suc fuel → octal / 8 < 8 ^ fuel
shrinks fuel octal lt = let lt' = simp unary_clauses at lt in omega (arith, lt')

-- The loop of `chmod` on a number below 8 to the power of the fuel has a result.
pub mode_loop_ends :
    (fuel pow decimal octal : ℕ)
    → octal < 8 ^ fuel
    → (n : ℕ) × (mode_loop (suc fuel) pow decimal octal ≡ some n)
unfolding mode_loop
mode_loop_ends zero pow decimal octal lt =
    let is_zero : (octal == 0) ≡ true = ground (arith, lt) in
    (decimal, rw (is_zero, mode_loop) refl)
mode_loop_ends (suc fuel) pow decimal octal lt =
    let (n, e) =
      mode_loop_ends fuel (pow * 8) (decimal + (octal % 10) * pow) (octal / 8)
        (shrinks fuel octal lt) in
    elim (Bool-cases (octal == 0)) [
      | inl is_zero ↦ (decimal, rw (is_zero, mode_loop) refl)
      | inr other ↦ (n, rw (other, mode_loop) e)
    ]
