-- ===== src/Rio/Counted.antt =====
-- `rio_readnb` of OS_HW3_234123/segel.c against the bytes of the input.
use os.Prelude.{
  ℕ, zero, suc, ◌-◌, ◌≤◌, ◌<◌, ◌≡◌, refl, sym, ap, ◌∙◌, ◌⊎◌, inl, inr, List, [], ◌∷◌, ◌++◌, arith,
  ◌==◌, length, length-append, take, append_assoc, append-nil, Bool-cases,
}
use os.Rio.{ReadResult, Rio, Reading, rio_read, count_round, count_loop, rio_readnb}
use os.Rio.Buffer.{pending, IsValid, Handed, rio_read-Handed}

-- What `rio_readnb` does with the bytes `all` when it has stored `text` and `nleft` are left.
abbrev pub CountRead : (nleft : ℕ) (text all : List ℕ) → Reading (List ℕ) → Type 0
CountRead nleft text all (Reading.done t rp rs) =
    IsValid rp rs
    × (t ≡ text ++ take nleft all)
    × ((t ++ pending rp rs ≡ text ++ all) ⊎ (t ≡ text ++ all))
CountRead nleft text all (Reading.error rp rs) = IsValid rp rs × (length all < nleft)
CountRead nleft text all Reading.blocks = length all < nleft

pub take-append_within :
    (n : ℕ) (xs ys : List ℕ) → length xs ≤ n → take n (xs ++ ys) ≡ xs ++ take (n - length xs) ys
take-append_within n [] ys le = let e : n - 0 ≡ n = omega arith in rw e refl
take-append_within zero (x ∷ xs) ys le = absurd (omega (arith, le))
take-append_within (suc n) (x ∷ xs) ys le =
    let e : suc n - suc (length xs) ≡ n - length xs = omega arith in
    rw e (ap (λ l. x ∷ l) (take-append_within n xs ys (omega (arith, le))))

pub take_nil : (n : ℕ) → take {A = ℕ} n [] ≡ []
take_nil zero = refl
take_nil (suc n) = refl

-- The rounds behind the one that stored `bytes`.
more_CountRead :
    (nleft : ℕ) (text bytes all : List ℕ) (r : Reading (List ℕ))
    → length bytes ≤ nleft
    → CountRead (nleft - length bytes) (text ++ bytes) all r
    → CountRead nleft text (bytes ++ all) r
more_CountRead nleft text bytes all (Reading.done t rp rs) le (is, stored, left_over) = (
  is,
  stored
      ∙ append_assoc text bytes (take (nleft - length bytes) all)
      ∙ ap (λ l. text ++ l) (sym (take-append_within nleft bytes all le)),
  elim left_over [
    | inl e ↦ inl (e ∙ append_assoc text bytes all)
    | inr e ↦ inr (e ∙ append_assoc text bytes all)
  ],
)
more_CountRead nleft text bytes all (Reading.error rp rs) le (is, short) =
    (is, omega (arith, short, length-append bytes all))
more_CountRead nleft text bytes all Reading.blocks le short =
    omega (arith, short, length-append bytes all)

count_round-CountRead :
    (nleft : ℕ) (text all : List ℕ) (next : List ℕ → Rio → List ReadResult → Reading (List ℕ))
    → (r : Reading (List ℕ)) → 1 ≤ nleft
    → Handed nleft all r
    → ((c : ℕ) (more : List ℕ) (rp : Rio) (rs : List ReadResult)
        → IsValid rp rs
        → CountRead
            (nleft - length (c ∷ more))
            (text ++ c ∷ more)
            (pending rp rs)
            (next (c ∷ more) rp rs))
    → CountRead nleft text all (count_round text next r)
unfolding count_round
count_round-CountRead nleft text all next (Reading.done [] rp rs) pos (is, e) again =
    rw e (
      is,
      sym (ap (λ l. text ++ l) (take_nil nleft) ∙ append-nil text),
      inr (sym (append-nil text)),
    )
count_round-CountRead nleft text all next (Reading.done (c ∷ more) rp rs) pos (is, le, e) again =
    rw e (more_CountRead nleft text (c ∷ more) (pending rp rs) _ le (again c more rp rs is))
count_round-CountRead nleft text all next (Reading.error rp rs) pos (is, e) again =
    rw e (is, omega (arith, pos))
count_round-CountRead nleft text all next Reading.blocks pos e again = rw e (omega (arith, pos))

count_loop-CountRead :
    (rounds nleft : ℕ) (text : List ℕ) (rp : Rio) (rs : List ReadResult)
    → nleft ≤ rounds
    → IsValid rp rs
    → CountRead nleft text (pending rp rs) (count_loop rounds nleft text rp rs)
unfolding count_loop
count_loop-CountRead zero nleft text rp rs le is =
    let e : nleft ≡ 0 = omega (arith, le) in rw e (is, sym (append-nil text), inl refl)
count_loop-CountRead (suc rounds) nleft text rp rs le is = elim (Bool-cases (nleft == 0)) [
  | inl enough ↦
      let e : nleft ≡ 0 = ground (arith, enough) in rw e (is, sym (append-nil text), inl refl)
  | inr some_left ↦
      let asked : 1 ≤ nleft = ground (arith, some_left) in
      rw (some_left, count_loop)
        (count_round-CountRead nleft text (pending rp rs) _ (rio_read nleft rp rs) asked
          (rio_read-Handed nleft rp rs asked is)
          (λ c more rp' rs' is'.
            count_loop-CountRead rounds (nleft - length (c ∷ more)) (text ++ c ∷ more) rp' rs'
              (omega (arith, le)) is'))
]

-- `rio_readnb` stores the next `n` bytes that are still to come, or all of them if they are fewer; it
-- returns -1 or blocks only if fewer are left. No byte behind those is lost, and the unread ones stay
-- inside the buffer. Its loop ends after at most `n` rounds.
pub rio_readnb-CountRead :
    (n : ℕ) (rp : Rio) (rs : List ReadResult)
    → IsValid rp rs
    → CountRead n [] (pending rp rs) (rio_readnb n rp rs)
unfolding rio_readnb
rio_readnb-CountRead n rp rs is = count_loop-CountRead n n [] rp rs (omega arith) is
