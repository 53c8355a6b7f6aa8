-- ===== src/Rio/Lines.antt =====
-- `rio_readlineb` of OS_HW3_234123/segel.c against the lines of the input.
use os.Prelude.{
  ℕ, zero, suc, ◌+◌, ◌-◌, ◌≤◌, ◌<◌, ◌≡◌, refl, sym, ◌∙◌, ◌⊎◌, inl, inr, Bool, true, false, List, [],
  ◌∷◌, ◌++◌, arith, ◌==◌, if◌then◌else◌, length, append_assoc, append-nil, Bool-cases,
}
use os.Rio.{
  ReadResult, Rio, Reading, Line, no_data, line, rio_read, line_round, line_loop, rio_readlineb,
}
use os.Rio.Buffer.{pending, IsValid, Handed, rio_read-Handed}

-- The first line of a text with its newline, cut to `left` bytes.
abbrev pub first_line : (left : ℕ) → List ℕ → List ℕ
first_line zero bs = []
first_line (suc left) [] = []
first_line (suc left) (c ∷ bs) = elim (c == b'\n') [
  | true ↦ c ∷ []
  | false ↦ c ∷ first_line left bs
]

-- Does that line end with its newline?
abbrev pub is_complete : (left : ℕ) → List ℕ → Bool
is_complete zero bs = false
is_complete (suc left) [] = false
is_complete (suc left) (c ∷ bs) = elim (c == b'\n') [ true ↦ true | false ↦ is_complete left bs ]

-- The text has neither a newline nor `left` bytes.
abbrev pub Unfinished : (left : ℕ) → List ℕ → Type 0
Unfinished left bs = (is_complete left bs ≡ false) × (length bs < left)

-- What `rio_readlineb` does with the bytes `all` when it has stored `text` in `n` - 1 rounds.
abbrev pub LineRead : (left n : ℕ) (text all : List ℕ) → Reading Line → Type 0
LineRead left n text all (Reading.done no_data rp rs) = IsValid rp rs × (all ≡ []) × (n ≡ 1)
LineRead left n text all (Reading.done (line t count) rp rs) =
    IsValid rp rs
    × (t ≡ text ++ first_line left all)
    × ((t ++ pending rp rs ≡ text ++ all) ⊎ (t ≡ text ++ all))
    × (count + (if is_complete left all then 1 else 0) ≡ n + length (first_line left all))
LineRead left n text all (Reading.error rp rs) = IsValid rp rs × Unfinished left all
LineRead left n text all Reading.blocks = Unfinished left all

module _ (left c : ℕ) (bs : List ℕ) where
  first_line_newline : (c == b'\n') ≡ true → first_line (suc left) (c ∷ bs) ≡ c ∷ []
  first_line_newline e = rw (e, first_line)

  is_complete_newline : (c == b'\n') ≡ true → is_complete (suc left) (c ∷ bs) ≡ true
  is_complete_newline e = rw (e, is_complete)

  first_line_other : (c == b'\n') ≡ false → first_line (suc left) (c ∷ bs) ≡ c ∷ first_line left bs
  first_line_other e = rw (e, first_line)

  is_complete_other : (c == b'\n') ≡ false → is_complete (suc left) (c ∷ bs) ≡ is_complete left bs
  is_complete_other e = rw (e, is_complete)

-- The rounds behind the one that stored `c`.
more_LineRead :
    (left n c : ℕ) (text all : List ℕ) (r : Reading Line)
    → (c == b'\n') ≡ false
    → 1 ≤ n
    → LineRead left (n + 1) (text ++ c ∷ []) all r
    → LineRead (suc left) n text (c ∷ all) r
more_LineRead left n c text all (Reading.done no_data rp rs) other pos h =
    absurd (omega (arith, h.2, pos))
more_LineRead left n c text all (Reading.done (line t count) rp rs) other pos h =
    rw (first_line_other left c all other, is_complete_other left c all other)
      (
        h.0,
        h.1 ∙ append_assoc text (c ∷ []) (first_line left all),
        elim h.2 [
          | inl left_over ↦ inl (left_over ∙ append_assoc text (c ∷ []) all)
          | inr at_end ↦ inr (at_end ∙ append_assoc text (c ∷ []) all)
        ],
        omega (arith, h.3),
      )
more_LineRead left n c text all (Reading.error rp rs) other pos h =
    rw (is_complete_other left c all other) (h.0, (h.1.0, omega (arith, h.1.1)))
more_LineRead left n c text all Reading.blocks other pos h =
    rw (is_complete_other left c all other) (h.0, omega (arith, h.1))

at_end_LineRead :
    (left n : ℕ) (text : List ℕ) (rp : Rio) (rs : List ReadResult)
    → IsValid rp rs
    → LineRead (suc left) n text [] (Reading.done (if n == 1 then no_data else line text n) rp rs)
at_end_LineRead left n text rp rs is = elim (Bool-cases (n == 1)) [
  | inl first ↦ rw first (is, refl, ground arith)
  | inr later ↦ rw later (is, sym (append-nil text), inr (sym (append-nil text)), omega arith)
]

line_round-LineRead :
    (left n : ℕ) (text all : List ℕ) (next : List ℕ → Rio → List ReadResult → Reading Line)
    → (r : Reading (List ℕ)) → 1 ≤ n
    → Handed 1 all r
    → ((t : List ℕ) (rp : Rio) (rs : List ReadResult)
        → IsValid rp rs
        → LineRead left (n + 1) t (pending rp rs) (next t rp rs))
    → LineRead (suc left) n text all (line_round n text next r)
unfolding line_round
line_round-LineRead left n text all next (Reading.done [] rp rs) pos h again =
    rw h.1 (at_end_LineRead left n text rp rs h.0)
line_round-LineRead left n text all next (Reading.done (c ∷ []) rp rs) pos h again =
    rw h.2 (elim (Bool-cases (c == b'\n')) [
      | inl newline ↦
          rw
            (
              newline,
              line_round,
              LineRead,
              first_line_newline left c (pending rp rs) newline,
              is_complete_newline left c (pending rp rs) newline,
            )
            (h.0, refl, inl (append_assoc text (c ∷ []) (pending rp rs)), omega arith)
      | inr other ↦
          rw (other, line_round)
            (more_LineRead left n c text (pending rp rs) _ other pos
              (again (text ++ c ∷ []) rp rs h.0))
    ])
line_round-LineRead left n text all next (Reading.done (c ∷ d ∷ more) rp rs) pos h again =
    absurd (omega (arith, h.1))
line_round-LineRead left n text all next (Reading.error rp rs) pos h again =
    rw h.1 (h.0, (refl, omega arith))
line_round-LineRead left n text all next Reading.blocks pos h again = rw h (refl, omega arith)

line_loop-LineRead :
    (left n : ℕ) (text : List ℕ) (rp : Rio) (rs : List ReadResult)
    → 1 ≤ n
    → IsValid rp rs
    → LineRead left n text (pending rp rs) (line_loop left n text rp rs)
unfolding line_loop
line_loop-LineRead zero n text rp rs pos is = (is, sym (append-nil text), inl refl, omega arith)
line_loop-LineRead (suc left) n text rp rs pos is =
    line_round-LineRead left n text (pending rp rs) (line_loop left (n + 1)) (rio_read 1 rp rs) pos
      (rio_read-Handed 1 rp rs (omega arith) is)
      (λ t rp' rs' is'. line_loop-LineRead left (n + 1) t rp' rs' (omega arith) is')

-- `rio_readlineb` stores the first line of the bytes that are still to come, with its newline and cut
-- to `maxlen` - 1 bytes, and the bytes behind it are what the next call finds, or there are none at
-- the end of the input; it returns 0 only if no byte is left, and -1, or blocks, only if the input
-- breaks off before a newline and before `maxlen` - 1 bytes. It returns the line's length if the line
-- ends with its newline, and else one more. The unread bytes stay inside the buffer throughout.
pub rio_readlineb-LineRead :
    (maxlen : ℕ) (rp : Rio) (rs : List ReadResult)
    → IsValid rp rs
    → LineRead (maxlen - 1) 1 [] (pending rp rs) (rio_readlineb maxlen rp rs)
unfolding rio_readlineb
rio_readlineb-LineRead maxlen rp rs is = line_loop-LineRead (maxlen - 1) 1 [] rp rs (omega arith) is
