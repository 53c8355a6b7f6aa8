-- ===== src/Rio/Examples.antt =====
-- The Rio package of OS_HW3_234123/segel.c on short inputs.
use os.Prelude.{ℕ, zero, suc, ◌≡◌, refl, arith, List, [], ◌∷◌}
use os.Prelude.Int.{pos, ◌-ℤ◌}
use os.Text.{codes}
use os.Rio.{
  ReadResult, got, interrupted, Rio, Reading, Line, no_data, line, refill, copy_out, rio_read,
  line_round, line_loop, rio_readinitb, rio_readlineb, WriteResult, wrote, rio_writen,
}
use os.Rio.Buffer.{pending, IsValid}
use os.Rio.{rio_readnb}
use os.Rio.Counted.{CountRead, rio_readnb-CountRead}
use os.Rio.Unbuffered.{rio_readn, SameBytes, rio_readn-rio_readnb}
use os.Rio.Lines.{LineRead, rio_readlineb-LineRead}
use os.Rio.Writes.{Written, rio_writen-Written}

abbrev zeros : ℕ → List ℕ
zeros zero = []
zeros (suc n) = 0 ∷ zeros n

-- A line that arrives in two parts, with the first bytes of the next; then the input ends.
abbrev input : List ReadResult
input = got (codes "GE") ∷ interrupted ∷ got (codes "T\nHo") ∷ got [] ∷ []

abbrev fresh : Rio
fresh = record { rio_cnt = pos 0; rio_bufptr = 0; rio_buf = zeros 8192 }

fresh-IsValid : IsValid fresh input
fresh-IsValid = record {
  inside = omega arith;
  room = refl;
  fits = (omega arith, (omega arith, (omega arith, tt)));
}

abbrev line_of : Reading Line → Line
line_of (Reading.done l rp rs) = l
line_of (Reading.error rp rs) = no_data
line_of Reading.blocks = no_data

-- Its length with the newline.
first_of_two : line_of (rio_readlineb 8192 (rio_readinitb (zeros 8)) input) ≡ line (codes "GET\n") 4
unfolding rio_readlineb line_loop line_round rio_read copy_out refill rio_readinitb ◌-ℤ◌
first_of_two = refl

-- A text without a newline: 2 bytes, and the result is 3.
broken_off :
    line_of (rio_readlineb 8192 (rio_readinitb (zeros 8)) (got (codes "Ho") ∷ got [] ∷ []))
    ≡ line (codes "Ho") 3
unfolding rio_readlineb line_loop line_round rio_read copy_out refill rio_readinitb ◌-ℤ◌
broken_off = refl

rio_readlineb-LineRead_example :
    LineRead 8191 1 [] (pending fresh input) (rio_readlineb 8192 fresh input)
rio_readlineb-LineRead_example = rio_readlineb-LineRead 8192 fresh input fresh-IsValid

rio_readnb-CountRead_example : CountRead 6 [] (pending fresh input) (rio_readnb 6 fresh input)
rio_readnb-CountRead_example = rio_readnb-CountRead 6 fresh input fresh-IsValid

abbrev writes : List WriteResult
writes = wrote 2 ∷ WriteResult.interrupted ∷ wrote 2 ∷ []

rio_writen-Written_example : Written [] (codes "GET\n") 4 (rio_writen (codes "GET\n") writes)
rio_writen-Written_example = rio_writen-Written (codes "GET\n") writes

-- The same bytes in other parts.
abbrev input_again : List ReadResult
input_again = got (codes "G") ∷ got (codes "ET\nHo") ∷ got [] ∷ []

rio_readn-rio_readnb_example :
    SameBytes 6 (pending fresh input) (rio_readn 6 input_again) (rio_readnb 6 fresh input)
rio_readn-rio_readnb_example =
    rio_readn-rio_readnb 6 fresh input input_again fresh-IsValid
      (omega arith, (omega arith, (omega arith, tt))) refl
