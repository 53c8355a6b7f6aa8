-- ===== src/Buddy/Neighbours.antt =====
-- The address that `findNeighboringBlock_ChallengeOne` of OS_HW4_234123/malloc_3.cpp computes.
use os.Prelude.{ℕ, zero, suc, ◌+◌, ◌*◌, ◌/◌, ◌%◌, ◌^◌, ◌<◌, ◌≡◌, sym, ap, subst, ◌∙◌, arith}
use native.Mathlib.Nat.{pow-suc, mul_assoc, mul_comm}
use native.Mathlib.Numerals.{unary_clauses}
use os.Buddy.Lists.{Memory}
use os.Buddy.{xor, find_neighboring_block}

half_even : (a : ℕ) → (2 * a) / 2 ≡ a
half_even a = omega arith

half_odd : (a : ℕ) → (2 * a + 1) / 2 ≡ a
half_odd a = omega arith

xor_even : (bits a b : ℕ) → xor (suc bits) (2 * a) (2 * b) ≡ 2 * xor bits a b
unfolding xor
xor_even bits a b =
    let e : ((2 * a) % 2 + (2 * b) % 2) % 2 ≡ 0 = omega arith in
    rw (e, half_even a, half_even b, xor) (omega arith)

xor_zero : (bits a : ℕ) → a < 2 ^ bits → xor bits a 0 ≡ a
unfolding xor
xor_zero zero a lt = omega (arith, lt)
xor_zero (suc bits) a lt =
    let lt' = simp unary_clauses at lt in
    let rest : xor bits (a / 2) 0 ≡ a / 2 = xor_zero bits (a / 2) (omega (arith, lt')) in
    rw rest (omega arith)

xor_even_one : (bits a : ℕ) → a < 2 ^ bits → xor (suc bits) (2 * a) 1 ≡ 2 * a + 1
unfolding xor
xor_even_one bits a lt = rw (half_even a, xor_zero bits a lt) (omega arith)

xor_odd_one : (bits a : ℕ) → a < 2 ^ bits → xor (suc bits) (2 * a + 1) 1 ≡ 2 * a
unfolding xor
xor_odd_one bits a lt = rw (half_odd a, xor_zero bits a lt) (omega arith)

twice_power : (q k : ℕ) → q * 2 ^ suc k ≡ 2 * (q * 2 ^ k)
twice_power q k =
    let e : q * 2 ^ suc k ≡ q * (2 ^ k * 2) = ap (λ n. q * n) (pow-suc 2 k) in
    e ∙ sym (mul_assoc q (2 ^ k) 2) ∙ mul_comm (q * 2 ^ k) 2

twice_suc : (k : ℕ) → 2 ^ suc k ≡ 2 * 2 ^ k
twice_suc k = pow-suc 2 k ∙ mul_comm (2 ^ k) 2

-- Both halves of a block, by their addresses.
abbrev AreHalves : (bits low size : ℕ) → Type 0
AreHalves bits low size = (xor bits low size ≡ low + size) × (xor bits (low + size) size ≡ low)

xor_halves_one : (bits q : ℕ) → 2 * q + 1 < 2 ^ suc bits → AreHalves (suc bits) (2 * q) 1
xor_halves_one bits q lt =
    let lt' = simp unary_clauses at lt in
    let lt'' : q < 2 ^ bits = omega (arith, lt') in
    (xor_even_one bits q lt'', xor_odd_one bits q lt'')

xor_halves_double :
    (bits low size : ℕ) → AreHalves bits low size → AreHalves (suc bits) (2 * low) (2 * size)
xor_halves_double bits low size (h, h') =
    let e : 2 * low + 2 * size ≡ 2 * (low + size) = omega arith in
    (
      xor_even bits low size ∙ ap (λ n. 2 * n) h ∙ sym e,
      ap (λ n. xor (suc bits) n (2 * size)) e
          ∙ xor_even bits (low + size) size
          ∙ ap (λ n. 2 * n) h',
    )

xor_halves :
    (bits k q : ℕ) → q * 2 ^ suc k + 2 ^ k < 2 ^ bits → AreHalves bits (q * 2 ^ suc k) (2 ^ k)
xor_halves zero k q lt = absurd (positive k (omega (arith, lt)))
  where
    positive : (k : ℕ) → 2 ^ k ≡ 0 → ⊥
    positive zero e = omega (arith, e)
    positive (suc k) e = let e' = sym (twice_suc k) ∙ e in positive k (omega (arith, e'))
xor_halves (suc bits) zero q lt =
    let e : q * 2 ^ 1 ≡ 2 * q = mul_comm q 2 in
    rw e (xor_halves_one bits q (subst (λ n. n + 1 < 2 ^ suc bits) e lt))
xor_halves (suc bits) (suc k) q lt =
    let e = twice_power q (suc k) in
    let e' = twice_suc k in
    let lt' : 2 * (q * 2 ^ suc k) + 2 * 2 ^ k < 2 * 2 ^ bits =
      omega (arith, e, e', twice_suc bits, lt) in
    let h =
      xor_halves_double bits (q * 2 ^ suc k) (2 ^ k) (xor_halves bits k q (omega (arith, lt'))) in
    subst (λ n. AreHalves (suc bits) n (2 ^ suc k)) (sym e)
      (subst (λ n. AreHalves (suc bits) (2 * (q * 2 ^ suc k)) n) (sym e') h)

-- A block of twice the size 2^k at a multiple of its size, in the 64 bits of an address: where the
-- metadata of both halves say 2^k, each half is the neighbour of the other.
pub find_neighboring_block_halves :
    (k q : ℕ) (m : Memory)
    → q * 2 ^ suc k + 2 ^ k < 2 ^ 64
    → (m (q * 2 ^ suc k)).size ≡ 2 ^ k
    → (m (q * 2 ^ suc k + 2 ^ k)).size ≡ 2 ^ k
    → (find_neighboring_block (q * 2 ^ suc k) m ≡ q * 2 ^ suc k + 2 ^ k)
      × (find_neighboring_block (q * 2 ^ suc k + 2 ^ k) m ≡ q * 2 ^ suc k)
unfolding find_neighboring_block
find_neighboring_block_halves k q m lt e e' =
    let halves = xor_halves 64 k q lt in (rw e halves.0, rw e' halves.1)
