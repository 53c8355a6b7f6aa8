-- ===== src/Rio/Unbuffered.antt =====
-- `rio_readn` of OS_HW3_234123/segel.c, which reads without the buffer, beside `rio_readnb`.
use os.Prelude.{
  ℕ, ◌-◌, ◌≤◌, ◌<◌, ◌≡◌, sym, ap, subst, ◌∙◌, List, [], ◌∷◌, ◌++◌, arith, length, length-append,
  take, append_assoc, append-nil, ◌==◌, if◌then◌else◌, Bool-cases, inl, inr,
}
use os.Rio.{ReadResult, got, interrupted, failed, Rio, Reading, rio_readnb}
use os.Rio.Buffer.{stream, pending, IsValid}
use os.Rio.Counted.{CountRead, rio_readnb-CountRead, take-append_within, take_nil}

-- How `rio_readn` ends: with the bytes that it stored, with -1, or not while `read` blocks.
pub data Direct : Type 0 where
  done : (text : List ℕ) → List ReadResult → Direct
  error : Direct
  blocks : Direct

unfoldable pub readn_loop : (nleft : ℕ) (text : List ℕ) → List ReadResult → Direct
readn_loop nleft text [] = if nleft == 0 then done text [] else blocks
readn_loop nleft text (r ∷ rs) = if nleft == 0 then done text (r ∷ rs) else elim r [
  | got [] ↦ done text rs
  | got (b ∷ bs) ↦ readn_loop (nleft - length (b ∷ bs)) (text ++ b ∷ bs) rs
  | interrupted ↦ readn_loop nleft text rs
  | failed ↦ error
]

unfoldable pub rio_readn : (n : ℕ) → List ReadResult → Direct
rio_readn n rs = readn_loop n [] rs

-- Each call of `read` delivers at most the bytes that it is asked for.
abbrev pub Asked : (nleft : ℕ) → List ReadResult → Type 0
Asked nleft [] = Unit {0}
Asked nleft (got bs ∷ rs) = (length bs ≤ nleft) × Asked (nleft - length bs) rs
Asked nleft (interrupted ∷ rs) = Asked nleft rs
Asked nleft (failed ∷ rs) = Asked nleft rs

-- The bytes `all` are still to come, and `nleft` of them are left to store.
abbrev DirectRead : (nleft : ℕ) (text all : List ℕ) → Direct → Type 0
DirectRead nleft text all (done t rs) = t ≡ text ++ take nleft all
DirectRead nleft text all error = length all < nleft
DirectRead nleft text all blocks = length all < nleft

more_DirectRead :
    (nleft : ℕ) (text bytes all : List ℕ) (r : Direct)
    → length bytes ≤ nleft
    → DirectRead (nleft - length bytes) (text ++ bytes) all r
    → DirectRead nleft text (bytes ++ all) r
more_DirectRead nleft text bytes all (done t rs) le stored =
    stored
    ∙ append_assoc text bytes (take (nleft - length bytes) all)
    ∙ ap (λ l. text ++ l) (sym (take-append_within nleft bytes all le))
more_DirectRead nleft text bytes all error le short = omega (arith, short, length-append bytes all)
more_DirectRead nleft text bytes all blocks le short = omega (arith, short, length-append bytes all)

-- One round of the loop, where `next` follows if bytes are left to store.
round-DirectRead :
    (nleft : ℕ) (text all : List ℕ) (rs : List ReadResult) (next : Direct)
    → (1 ≤ nleft → DirectRead nleft text all next)
    → DirectRead nleft text all (if nleft == 0 then done text rs else next)
round-DirectRead nleft text all rs next further = elim (Bool-cases (nleft == 0)) [
  | inl enough ↦ let e : nleft ≡ 0 = ground (arith, enough) in rw e (sym (append-nil text))
  | inr some_left ↦ rw some_left (further (ground (arith, some_left)))
]

readn_loop-DirectRead :
    (nleft : ℕ) (text : List ℕ) (rs : List ReadResult)
    → Asked nleft rs
    → DirectRead nleft text (stream rs) (readn_loop nleft text rs)
unfolding readn_loop
readn_loop-DirectRead nleft text [] asked = round-DirectRead nleft text [] [] blocks (λ pos. pos)
readn_loop-DirectRead nleft text (got [] ∷ rs) asked =
    round-DirectRead nleft text [] _ (done text rs)
      (λ pos. sym (ap (λ l. text ++ l) (take_nil nleft) ∙ append-nil text))
readn_loop-DirectRead nleft text (got (b ∷ bs) ∷ rs) (le, asked) =
    let next = readn_loop-DirectRead (nleft - length (b ∷ bs)) (text ++ b ∷ bs) rs asked in
    round-DirectRead nleft text _ _ _
      (λ pos. more_DirectRead nleft text (b ∷ bs) (stream rs) _ le next)
readn_loop-DirectRead nleft text (interrupted ∷ rs) asked =
    let next = readn_loop-DirectRead nleft text rs asked in
    round-DirectRead nleft text _ _ _ (λ pos. next)
readn_loop-DirectRead nleft text (failed ∷ rs) asked =
    round-DirectRead nleft text [] _ error (λ pos. pos)

-- Both store the same bytes, or one of them fails or blocks, and fewer than `n` are still to come.
abbrev pub SameBytes : (n : ℕ) (all : List ℕ) → Direct → Reading (List ℕ) → Type 0
SameBytes n all (done t rs) (Reading.done t' rp rs') = t ≡ t'
SameBytes n all (done t rs) (Reading.error rp rs') = length all < n
SameBytes n all (done t rs) Reading.blocks = length all < n
SameBytes n all error r = length all < n
SameBytes n all blocks r = length all < n

same_bytes :
    (n : ℕ) (all : List ℕ) (d : Direct) (r : Reading (List ℕ))
    → DirectRead n [] all d
    → CountRead n [] all r
    → SameBytes n all d r
same_bytes n all (done t rs) (Reading.done t' rp rs') e (is, e', over) = e ∙ sym e'
same_bytes n all (done t rs) (Reading.error rp rs') e (is, short) = short
same_bytes n all (done t rs) Reading.blocks e short = short
same_bytes n all error r short h = short
same_bytes n all blocks r short h = short

-- Where the same bytes are still to come, however the calls of `read` cut them up, `rio_readn` and
-- `rio_readnb` store the same bytes; otherwise one of them returns -1 or blocks, and fewer than `n`
-- bytes are still to come. `read` delivers at most what it is asked for, and the unread bytes of
-- `rio_readnb` lie inside its buffer.
pub rio_readn-rio_readnb :
    (n : ℕ) (rp : Rio) (rs rs' : List ReadResult)
    → IsValid rp rs
    → Asked n rs'
    → stream rs' ≡ pending rp rs
    → SameBytes n (pending rp rs) (rio_readn n rs') (rio_readnb n rp rs)
unfolding rio_readn
rio_readn-rio_readnb n rp rs rs' is asked same =
    let direct = readn_loop-DirectRead n [] rs' asked in
    same_bytes n (pending rp rs) (rio_readn n rs') (rio_readnb n rp rs)
      (subst (λ all. DirectRead n [] all (readn_loop n [] rs')) same direct)
      (rio_readnb-CountRead n rp rs is)
