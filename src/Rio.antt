-- ===== src/Rio.antt =====
-- The Rio package of OS_HW3_234123/segel.c: reading and writing in spite of short counts and of
-- interrupted system calls. What the calls of `read` and `write` return, one after the other, is an
-- argument; where it ends the next call blocks.
pub mod Buffer
pub mod Lines
pub mod Counted
pub mod Writes
pub mod Unbuffered
mod Examples
use os.Prelude.{
  ℕ, zero, suc, ◌+◌, ◌-◌, Bool, true, false, List, [], ◌∷◌, ◌++◌, ◌==◌, if◌then◌else◌, length, take,
  drop,
}
use os.Prelude.Int.{ℤ, pos, negsuc, pos_part, neg_part, ◌-ℤ◌, ltb_ℤ}

-- A call of `read`: the bytes that it delivered, none of them at the end of the input, or -1, with
-- EINTR in `errno` or something else.
pub data ReadResult : Type 0 where
  got : (bytes : List ℕ) → ReadResult
  interrupted : ReadResult
  failed : ReadResult

-- `rio_t`: the unread bytes, and where in the buffer the next of them is.
pub record Rio : Type 0 where
  pub rio_cnt : ℤ
  pub rio_bufptr : ℕ
  pub rio_buf : List ℕ

-- How a function ends: with a result, with -1, or not while `read` blocks.
pub data Reading (A : Type 0) : Type 0 where
  done : A → Rio → List ReadResult → Reading A
  error : Rio → List ReadResult → Reading A
  blocks : Reading A

unfoldable pub rio_readinitb : List ℕ → Rio
rio_readinitb junk = record { rio_cnt = pos 0; rio_bufptr = 0; rio_buf = junk }

-- `read` into the buffer: its first bytes are overwritten.
abbrev pub received : List ℕ → Rio → Rio
received bytes rp = record {
  rio_cnt = pos (length bytes);
  rio_bufptr = 0;
  rio_buf = bytes ++ drop (length bytes) rp.rio_buf;
}

-- The loop of `rio_read` that refills an empty buffer. The result says whether there are unread
-- bytes: there are none at the end of the input.
unfoldable pub refill : List ReadResult → Rio → Reading Bool
refill [] rp = if ltb_ℤ (pos 0) rp.rio_cnt then done true rp [] else blocks
refill (r ∷ rs) rp = if ltb_ℤ (pos 0) rp.rio_cnt then done true rp (r ∷ rs) else elim r [
  | got [] ↦ done false (record rp { rio_cnt = pos 0 }) rs
  | got (b ∷ bs) ↦ refill rs (received (b ∷ bs) rp)
  | interrupted ↦ refill rs (record rp { rio_cnt = negsuc 0 })
  | failed ↦ error (record rp { rio_cnt = negsuc 0 }) rs
]

-- `min(n, rp->rio_cnt)`
abbrev pub copied : ℕ → Rio → ℕ
copied n rp = if ltb_ℤ rp.rio_cnt (pos n) then pos_part rp.rio_cnt else n

-- The part of `rio_read` behind its loop.
unfoldable pub copy_out : ℕ → Reading Bool → Reading (List ℕ)
copy_out n (done true rp rs) =
    done (take (copied n rp) (drop rp.rio_bufptr rp.rio_buf))
      (record {
        rio_cnt = rp.rio_cnt -ℤ pos (copied n rp);
        rio_bufptr = rp.rio_bufptr + copied n rp;
        rio_buf = rp.rio_buf;
      })
      rs
copy_out n (done false rp rs) = done [] rp rs
copy_out n (error rp rs) = error rp rs
copy_out n blocks = blocks

-- The bytes that it stores; their number is what it returns.
unfoldable pub rio_read : ℕ → Rio → List ReadResult → Reading (List ℕ)
rio_read n rp rs = copy_out n (refill rs rp)

-- What `rio_readlineb` leaves: nothing, when it returns 0 and does not write to the buffer, or a text
-- with its final 0 and the number that it returns.
pub data Line : Type 0 where
  no_data : Line
  line : (text : List ℕ) (count : ℕ) → Line

-- One round: `n` is the loop's counter, `text` what is stored so far, and `next` the further rounds.
unfoldable pub line_round :
    (n : ℕ) (text : List ℕ) (next : List ℕ → Rio → List ReadResult → Reading Line)
    → Reading (List ℕ)
    → Reading Line
line_round n text next (done [] rp rs) = done (if n == 1 then no_data else line text n) rp rs
line_round n text next (done (c ∷ more) rp rs) = elim (c == b'\n') [
  | true ↦ done (line (text ++ c ∷ []) n) rp rs
  | false ↦ next (text ++ c ∷ []) rp rs
]
line_round n text next (error rp rs) = error rp rs
line_round n text next blocks = blocks

-- The loop, with the rounds that are left.
unfoldable pub line_loop : (left n : ℕ) (text : List ℕ) → Rio → List ReadResult → Reading Line
line_loop zero n text rp rs = done (line text n) rp rs
line_loop (suc left) n text rp rs = line_round n text (line_loop left (n + 1)) (rio_read 1 rp rs)

unfoldable pub rio_readlineb : (maxlen : ℕ) → Rio → List ReadResult → Reading Line
rio_readlineb maxlen rp rs = line_loop (maxlen - 1) 1 [] rp rs

-- One round of `rio_readnb`: `next` is what follows behind the bytes that are stored.
unfoldable pub count_round :
    (text : List ℕ) (next : List ℕ → Rio → List ReadResult → Reading (List ℕ))
    → Reading (List ℕ)
    → Reading (List ℕ)
count_round text next (done [] rp rs) = done text rp rs
count_round text next (done (c ∷ more) rp rs) = next (c ∷ more) rp rs
count_round text next (error rp rs) = error rp rs
count_round text next blocks = blocks

-- The loop, with fuel for its rounds: each but the last stores a byte, so that `nleft` of them are
-- enough.
unfoldable pub count_loop :
    (rounds nleft : ℕ) (text : List ℕ) → Rio → List ReadResult → Reading (List ℕ)
count_loop zero nleft text rp rs = done text rp rs
count_loop (suc rounds) nleft text rp rs =
    if nleft == 0
    then done text rp rs
    else count_round text (λ bytes. count_loop rounds (nleft - length bytes) (text ++ bytes))
        (rio_read nleft rp rs)

-- The bytes that it stores; their number is what it returns.
unfoldable pub rio_readnb : (n : ℕ) → Rio → List ReadResult → Reading (List ℕ)
rio_readnb n rp rs = count_loop n n [] rp rs

-- A call of `write`: the number of bytes written, if positive, or else EINTR in `errno` or not.
pub data WriteResult : Type 0 where
  wrote : (count : ℕ) → WriteResult
  interrupted : WriteResult
  failed : WriteResult

-- How `rio_writen` ends, with the bytes that were written.
pub data Writing : Type 0 where
  done : (sent : List ℕ) → Writing
  error : (sent : List ℕ) → Writing
  blocks : (sent : List ℕ) → Writing

-- `left` is the part of the buffer from `bufp` on, `sent` what was written so far.
unfoldable pub write_loop : (sent left : List ℕ) → List WriteResult → Writing
write_loop sent [] rs = done sent
write_loop sent (b ∷ bs) [] = blocks sent
write_loop sent (b ∷ bs) (r ∷ rs) = elim r [
  | wrote k ↦ write_loop (sent ++ take k (b ∷ bs)) (drop k (b ∷ bs)) rs
  | interrupted ↦ write_loop sent (b ∷ bs) rs
  | failed ↦ error sent
]

unfoldable pub rio_writen : (usrbuf : List ℕ) → List WriteResult → Writing
rio_writen usrbuf rs = write_loop [] usrbuf rs
