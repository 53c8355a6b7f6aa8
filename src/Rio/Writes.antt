-- ===== src/Rio/Writes.antt =====
-- `rio_writen` of OS_HW3_234123/segel.c.
use os.Prelude.{
  ℕ, zero, suc, ◌+◌, ◌<◌, ◌≡◌, refl, sym, ap, ◌∙◌, List, [], ◌∷◌, ◌++◌, arith, length, take, drop,
  append_assoc, append-nil,
}
use os.Rio.{WriteResult, wrote, interrupted, failed, Writing, write_loop, rio_writen}
use os.Rio.Buffer.{length-drop}

-- The numbers of bytes that the calls of `write` up to a failure report, together.
abbrev pub written : List WriteResult → ℕ
written [] = 0
written (wrote k ∷ rs) = k + written rs
written (interrupted ∷ rs) = written rs
written (failed ∷ rs) = 0

-- Of the bytes `left` behind those of `sent` all are written, or a part, and then the calls of
-- `write` did not report as many.
abbrev pub Written : (sent left : List ℕ) (reported : ℕ) → Writing → Type 0
Written sent left reported (Writing.done out) = out ≡ sent ++ left
Written sent left reported (Writing.error out) =
    (unsent : List ℕ) × (out ++ unsent ≡ sent ++ left) × (reported < length left)
Written sent left reported (Writing.blocks out) =
    (unsent : List ℕ) × (out ++ unsent ≡ sent ++ left) × (reported < length left)

take-append-drop : (k : ℕ) (xs : List ℕ) → take k xs ++ drop k xs ≡ xs
take-append-drop zero xs = refl
take-append-drop (suc k) [] = refl
take-append-drop (suc k) (x ∷ xs) = ap (λ t. x ∷ t) (take-append-drop k xs)

-- The calls behind one that wrote `k` bytes.
more-Written :
    (k : ℕ) (sent left : List ℕ) (reported : ℕ) (r : Writing)
    → Written (sent ++ take k left) (drop k left) reported r
    → Written sent left (k + reported) r
more-Written k sent left reported r h = by_end r h
  where
    whole : (sent ++ take k left) ++ drop k left ≡ sent ++ left
    whole =
        append_assoc sent (take k left) (drop k left)
        ∙ ap (λ t. sent ++ t) (take-append-drop k left)

    by_end :
        (r : Writing)
        → Written (sent ++ take k left) (drop k left) reported r
        → Written sent left (k + reported) r
    by_end (Writing.done out) h = h ∙ whole
    by_end (Writing.error out) (unsent, e, lt) =
        (unsent, e ∙ whole, omega (arith, lt, length-drop k left))
    by_end (Writing.blocks out) (unsent, e, lt) =
        (unsent, e ∙ whole, omega (arith, lt, length-drop k left))

write_loop-Written :
    (sent left : List ℕ) (rs : List WriteResult)
    → Written sent left (written rs) (write_loop sent left rs)
unfolding write_loop
write_loop-Written sent [] rs = sym (append-nil sent)
write_loop-Written sent (b ∷ bs) [] = (b ∷ bs, refl, omega arith)
write_loop-Written sent (b ∷ bs) (wrote k ∷ rs) =
    more-Written k sent (b ∷ bs) (written rs) _
      (write_loop-Written (sent ++ take k (b ∷ bs)) (drop k (b ∷ bs)) rs)
write_loop-Written sent (b ∷ bs) (interrupted ∷ rs) = write_loop-Written sent (b ∷ bs) rs
write_loop-Written sent (b ∷ bs) (failed ∷ rs) = (b ∷ bs, refl, omega arith)

-- `rio_writen` writes the bytes of its buffer in order and returns when all are written, however
-- they are cut up. It returns -1, or blocks, only when the calls of `write` up to then reported
-- fewer bytes than the buffer has, and has then written a first part.
pub rio_writen-Written :
    (usrbuf : List ℕ) (rs : List WriteResult)
    → Written [] usrbuf (written rs) (rio_writen usrbuf rs)
unfolding rio_writen
rio_writen-Written usrbuf rs = write_loop-Written [] usrbuf rs
