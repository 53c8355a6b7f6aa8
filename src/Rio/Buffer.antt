-- ===== src/Rio/Buffer.antt =====
-- `rio_read` of OS_HW3_234123/segel.c: its buffer, and the bytes that it hands over.
use os.Prelude.{
  ℕ, zero, suc, ◌+◌, ◌-◌, ◌≤◌, ◌≡◌, refl, sym, subst, ap, ◌∙◌, inl, inr, Bool, true, false, List,
  [], ◌∷◌, ◌++◌, arith, length, take, drop, length-append, append_assoc, Bool-cases,
}
use os.Prelude.Int.{ℤ, pos, negsuc, pos_part, ◌-ℤ◌, ltb_ℤ}
use native.Mathlib.Numerals.{unary_clauses}
use os.Rio.{
  ReadResult, got, interrupted, failed, Rio, Reading, received, refill, copied, copy_out, rio_read,
}

-- The unread bytes of the buffer.
abbrev pub unread : Rio → List ℕ
unread rp = take (pos_part rp.rio_cnt) (drop rp.rio_bufptr rp.rio_buf)

-- The bytes that the calls of `read` deliver up to the end of the input or to a failure.
abbrev pub stream : List ReadResult → List ℕ
stream [] = []
stream (got [] ∷ rs) = []
stream (got (b ∷ bs) ∷ rs) = (b ∷ bs) ++ stream rs
stream (interrupted ∷ rs) = stream rs
stream (failed ∷ rs) = []

-- All bytes that are still to be handed over.
abbrev pub pending : Rio → List ReadResult → List ℕ
pending rp rs = unread rp ++ stream rs

-- `read` delivers at most as many bytes as the buffer has room for.
abbrev pub Fits : List ReadResult → Type 0
Fits [] = Unit {0}
Fits (got bs ∷ rs) = (length bs ≤ 8192) × Fits rs
Fits (interrupted ∷ rs) = Fits rs
Fits (failed ∷ rs) = Fits rs

-- The unread bytes lie inside the buffer of RIO_BUFSIZE bytes.
pub record IsValid (rp : Rio) (rs : List ReadResult) : Type 0 where
  pub inside : rp.rio_bufptr + pos_part rp.rio_cnt ≤ 8192
  pub room : length rp.rio_buf ≡ 8192
  pub fits : Fits rs

module _ {ℓ} {A : Type ℓ} where
  pub length-drop : (n : ℕ) (xs : List A) → length (drop n xs) ≡ length xs - n
  length-drop zero xs = omega arith
  length-drop (suc n) [] = omega arith
  length-drop (suc n) (x ∷ xs) = omega (arith, length-drop n xs)

  pub length-take : (n : ℕ) (xs : List A) → n ≤ length xs → length (take n xs) ≡ n
  length-take zero xs h = refl
  length-take (suc n) [] h = absurd (omega arith)
  length-take (suc n) (x ∷ xs) h = omega (arith, length-take n xs (omega arith))

  pub take_own : (xs ys : List A) → take (length xs) (xs ++ ys) ≡ xs
  take_own [] ys = refl
  take_own (x ∷ xs) ys = ap (λ t. x ∷ t) (take_own xs ys)

  pub drop-drop : (m n : ℕ) (xs : List A) → drop n (drop m xs) ≡ drop (m + n) xs
  drop-drop zero n xs = let e : 0 + n ≡ n = omega arith in rw e
  drop-drop (suc m) zero [] = simp unary_clauses refl
  drop-drop (suc m) (suc n) [] = simp unary_clauses refl
  drop-drop (suc m) n (x ∷ xs) =
      let e : suc m + n ≡ suc (m + n) = omega arith in rw e (drop-drop m n xs)

  -- A text is taken in two parts.
  pub take-append-take : (m n : ℕ) (xs : List A) → take m xs ++ take n (drop m xs) ≡ take (m + n) xs
  take-append-take zero n xs = let e : 0 + n ≡ n = omega arith in rw e
  take-append-take (suc m) zero [] = simp unary_clauses refl
  take-append-take (suc m) (suc n) [] = simp unary_clauses refl
  take-append-take (suc m) n (x ∷ xs) =
      let e : suc m + n ≡ suc (m + n) = omega arith in
      rw e (ap (λ t. x ∷ t) (take-append-take m n xs))

received-IsValid :
    (bs : List ℕ) (rp : Rio) (rs : List ReadResult)
    → IsValid rp (got bs ∷ rs)
    → IsValid (received bs rp) rs
received-IsValid bs rp rs is = record {
  inside = omega (arith, is.fits.0);
  room = omega (
    arith,
    length-append bs (drop (length bs) rp.rio_buf),
    length-drop (length bs) rp.rio_buf,
    is.room,
    is.fits.0,
  );
  fits = is.fits.1;
}

-- What a refill promises: no byte is lost, and it ends with a byte to hand over, or with none left.
abbrev pub Refilled : List ℕ → Reading Bool → Type 0
Refilled all (Reading.done true rp rs) =
    IsValid rp rs × (pos_part rp.rio_cnt ≡ suc (pos_part rp.rio_cnt - 1)) × (all ≡ pending rp rs)
Refilled all (Reading.done false rp rs) = IsValid rp rs × (all ≡ [])
Refilled all (Reading.error rp rs) = IsValid rp rs × (all ≡ [])
Refilled all Reading.blocks = all ≡ []

-- An empty buffer holds no byte.
empty_unread : (rp : Rio) → ltb_ℤ (pos 0) rp.rio_cnt ≡ false → unread rp ≡ []
empty_unread rp empty = let none_left : pos_part rp.rio_cnt ≡ 0 = ground arith in rw none_left

pub refill-Refilled :
    (rs : List ReadResult) (rp : Rio) → IsValid rp rs → Refilled (pending rp rs) (refill rs rp)
unfolding refill
refill-Refilled [] rp is = elim (Bool-cases (ltb_ℤ (pos 0) rp.rio_cnt)) [
  | inl some_left ↦ rw some_left (is, ground arith, refl)
  | inr empty ↦ rw (empty, empty_unread rp empty)
]
refill-Refilled (r ∷ rs) rp is = elim (Bool-cases (ltb_ℤ (pos 0) rp.rio_cnt)) [
  | inl some_left ↦ rw some_left (is, ground arith, refl)
  | inr empty ↦ rw (empty, empty_unread rp empty) (by_result r is (refill-Refilled rs))
]
  where
    by_result :
        (r : ReadResult)
        → IsValid rp (r ∷ rs)
        → ((rp' : Rio) → IsValid rp' rs → Refilled (pending rp' rs) (refill rs rp'))
        → Refilled (stream (r ∷ rs)) (elim r [
          | got [] ↦ Reading.done false (record rp { rio_cnt = pos 0 }) rs
          | got (b ∷ bs) ↦ refill rs (received (b ∷ bs) rp)
          | interrupted ↦ refill rs (record rp { rio_cnt = negsuc 0 })
          | failed ↦ Reading.error (record rp { rio_cnt = negsuc 0 }) rs
        ])
    by_result (got []) is again =
        (record { inside = omega (arith, is.inside); room = is.room; fits = is.fits.1 }, refl)
    by_result (got (b ∷ bs)) is again =
        subst (λ t. Refilled (t ++ stream rs) (refill rs (received (b ∷ bs) rp)))
          (take_own (b ∷ bs) _) (again (received (b ∷ bs) rp) (received-IsValid (b ∷ bs) rp rs is))
    by_result interrupted is again =
        again (record rp { rio_cnt = negsuc 0 })
          (record { inside = omega (arith, is.inside); room = is.room; fits = is.fits })
    by_result failed is again =
        (record { inside = omega (arith, is.inside); room = is.room; fits = is.fits }, refl)

-- What `rio_read` promises for `n` bytes: they are the next ones, at least one, or none are left.
abbrev pub Handed : ℕ → List ℕ → Reading (List ℕ) → Type 0
Handed n all (Reading.done [] rp rs) = IsValid rp rs × (all ≡ [])
Handed n all (Reading.done (c ∷ more) rp rs) =
    IsValid rp rs × (length (c ∷ more) ≤ n) × (all ≡ (c ∷ more) ++ pending rp rs)
Handed n all (Reading.error rp rs) = IsValid rp rs × (all ≡ [])
Handed n all Reading.blocks = all ≡ []

Handed-of :
    (n k : ℕ) (all bs : List ℕ) (rp : Rio) (rs : List ReadResult)
    → length bs ≡ suc k
    → suc k ≤ n
    → IsValid rp rs
    → all ≡ bs ++ pending rp rs
    → Handed n all (Reading.done bs rp rs)
Handed-of n k all [] rp rs len le is e = absurd (omega (arith, len))
Handed-of n k all (c ∷ more) rp rs len le is e = (is, omega (arith, len, le), e)

pos_part-sub : (a : ℤ) (k j : ℕ) → pos_part a ≡ suc k + j → pos_part (a -ℤ pos (suc k)) ≡ j
unfolding ◌-ℤ◌
pos_part-sub (pos n) k j e = ground arith
pos_part-sub (negsuc n) k j e = ground arith

-- How many bytes are copied, and how many stay.
copied_split :
    (n : ℕ) (rp : Rio)
    → 1 ≤ n
    → 1 ≤ pos_part rp.rio_cnt
    → (k : ℕ) × (j : ℕ) × (copied n rp ≡ suc k) × (suc k ≤ n) × (pos_part rp.rio_cnt ≡ suc k + j)
copied_split n rp asked some_left = elim (Bool-cases (ltb_ℤ rp.rio_cnt (pos n))) [
  | inl fewer ↦ rw fewer (pos_part rp.rio_cnt - 1, 0, ground arith, ground arith, ground arith)
  | inr enough ↦ rw enough (n - 1, pos_part rp.rio_cnt - n, omega arith, omega arith, ground arith)
]

copy_out-Handed :
    (n : ℕ) (all : List ℕ) (r : Reading Bool) → 1 ≤ n → Refilled all r → Handed n all (copy_out n r)
unfolding copy_out
copy_out-Handed n all (Reading.done true rp rs) asked h =
    let (k, j, size_is, at_most, whole) = copied_split n rp asked (omega (arith, h.1)) in
    let rest = pos_part-sub rp.rio_cnt k j whole in
    rw size_is (
      Handed-of n k all _ _ rs
        (length-take (suc k) (drop rp.rio_bufptr rp.rio_buf)
          (omega (arith, length-drop rp.rio_bufptr rp.rio_buf, h.0.inside, h.0.room, whole)))
        at_most
        (record {
          inside = omega (arith, h.0.inside, whole, rest);
          room = h.0.room;
          fits = h.0.fits;
        })
        (h.2
          ∙ rw
              (
                whole,
                rest,
                sym (drop-drop rp.rio_bufptr (suc k) rp.rio_buf),
                sym (take-append-take (suc k) j (drop rp.rio_bufptr rp.rio_buf)),
              )
              (append_assoc (take (suc k) (drop rp.rio_bufptr rp.rio_buf)) _ (stream rs))))
copy_out-Handed n all (Reading.done false rp rs) asked h = h
copy_out-Handed n all (Reading.error rp rs) asked h = h
copy_out-Handed n all Reading.blocks asked h = h

-- `rio_read` hands over the next bytes that are still to come, at least one and at most as many as
-- asked for, and keeps the others; it returns 0 or -1, or blocks, only if no byte is left. The unread
-- bytes stay inside the buffer.
pub rio_read-Handed :
    (n : ℕ) (rp : Rio) (rs : List ReadResult)
    → 1 ≤ n
    → IsValid rp rs
    → Handed n (pending rp rs) (rio_read n rp rs)
unfolding rio_read
rio_read-Handed n rp rs asked is =
    copy_out-Handed n _ (refill rs rp) asked (refill-Refilled rs rp is)
