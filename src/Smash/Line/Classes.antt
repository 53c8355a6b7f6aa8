-- ===== src/Smash/Line/Classes.antt =====
-- Which classes of command a line of OS_HW1_234123/Commands.cpp can create.
use os.Prelude.{
  ℕ, ◌≡◌, refl, sym, subst, ◌∙◌, Bool, true, false, ◌||◌, Option, none, some, [], ◌∷◌, ◌++◌, arith,
  ◌==◌, Bool-cases, inl, inr, of_both,
}
use mathlib.Core.Bool.{true≢false}
use os.Text.{codes, str_eq, contains, before}
use os.Smash.Types.{Text, Command, chmod, external, redirection, pipe}
use os.Smash.Line.{
  trim, is_background_command, first_word, is_named, create_redirection, divide_redirection,
  create_pipe, divide_pipe, choose, choose_known, create_command, parameters,
}
use os.Smash.Line.Trim.{EndsClean, trim_lem, trim_clean}
use os.Smash.Line.Dispatch.{
  Lacks, Lacks-append, contains_lacked, IsWord, background_known, EndsClean-append,
}

abbrev pub AllOf : (Command → Type 0) → Option Command → Type 0
AllOf P none = Unit
AllOf P (some c) = P c

-- The class is not that of a redirection.
abbrev pub IsPlain : Command → Type 0
IsPlain (redirection first file is_append) = ⊥
IsPlain c = Unit

-- The command of a redirection has no '>' of its own.
abbrev pub IsFlat : Command → Type 0
IsFlat (redirection first file is_append) = Lacks b'>' first
IsFlat c = Unit

abbrev pub IsNotChmod : Command → Type 0
IsNotChmod (chmod ps) = ⊥
IsNotChmod c = Unit

Lacks-left : (sign : ℕ) (s t : Text) → Lacks sign (s ++ t) → Lacks sign s
Lacks-left sign [] t h = tt
Lacks-left sign (c ∷ s) t h = (h.0, Lacks-left sign s t h.1)

Lacks-right : (sign : ℕ) (s t : Text) → Lacks sign (s ++ t) → Lacks sign t
Lacks-right sign [] t h = h
Lacks-right sign (c ∷ s) t h = Lacks-right sign s t h.1

trim-Lacks : (sign : ℕ) (s : Text) → Lacks sign s → Lacks sign (trim s)
trim-Lacks sign s h =
    let (front, back, whole, w, w', starts, ends) = trim_lem s in
    Lacks-left sign (trim s) back
      (Lacks-right sign front (trim s ++ back) (subst (Lacks sign) whole h))

before-Lacks : (sign : ℕ) (s : Text) → Lacks sign (before sign s)
before-Lacks sign [] = tt
before-Lacks sign (c ∷ s) = elim (Bool-cases (c == sign)) [
  | inl here ↦ rw here tt
  | inr other ↦ rw other (other, before-Lacks sign s)
]

-- The classes that a first word names, and the external command.
abbrev IsSimple : Command → Type 0
IsSimple (redirection first file is_append) = ⊥
IsSimple (pipe first second with_ampersand) = ⊥
IsSimple (chmod ps) = ⊥
IsSimple c = Unit

choose_all :
    (P : Command → Type 0)
    → ((c : Command) → IsSimple c → P c)
    → (cmd_line : Text) (is_bg : Bool)
    → (contains (b'>' ∷ []) (trim cmd_line) ≡ true → AllOf P (create_redirection cmd_line))
    → (contains (b'|' ∷ []) (trim cmd_line) ≡ true → AllOf P (create_pipe cmd_line))
    → AllOf P (choose cmd_line is_bg)
unfolding choose
choose_all P simple cmd_line is_bg redirected piped =
    let word = first_word (trim cmd_line) in
    elim (Bool-cases (contains (b'>' ∷ []) (trim cmd_line))) [
      | inl has ↦ rw (has, choose) (redirected has)
      | inr lacks ↦
          rw (lacks, choose)
            (elim (Bool-cases (contains (b'|' ∷ []) (trim cmd_line))) [
              | inl has' ↦ rw has' (piped has')
              | inr lacks' ↦ rw lacks' (
                  of_both (AllOf P) (is_named (codes "chprompt") word) _ _ (simple _ tt) (
                    of_both (AllOf P) (is_named (codes "showpid") word) _ _ (simple _ tt) (
                      of_both (AllOf P) (is_named (codes "pwd") word) _ _ (simple _ tt) (
                        of_both (AllOf P) (is_named (codes "cd") word) _ _ (simple _ tt) (
                          of_both (AllOf P) (is_named (codes "jobs") word) _ _ (simple _ tt) (
                            of_both (AllOf P) (is_named (codes "fg") word) _ _ (simple _ tt) (
                              of_both (AllOf P) (is_named (codes "quit") word) _ _ (simple _ tt) (
                                of_both (AllOf P)
                                  (str_eq word (codes "kill") || str_eq word (codes "kill")) _ _
                                  (simple _ tt) (simple _ tt)))))))))
            ])
    ]

create_all :
    (P : Command → Type 0)
    → ((c : Command) → IsSimple c → P c)
    → (cmd_line : Text)
    → (contains (b'>' ∷ []) (trim cmd_line) ≡ true → AllOf P (create_redirection cmd_line))
    → (contains (b'|' ∷ []) (trim cmd_line) ≡ true → AllOf P (create_pipe cmd_line))
    → AllOf P (create_command cmd_line)
unfolding create_command choose_known
create_all P simple cmd_line redirected piped = by_sign (is_background_command cmd_line)
  where
    by_sign : (o : Option Bool) → AllOf P (choose_known cmd_line o)
    by_sign none = tt
    by_sign (some is_bg) = choose_all P simple cmd_line is_bg redirected piped

divide_redirection_all :
    (P : Command → Type 0) (first : Text) (o : Option Text)
    → ((file : Text) (is_append : Bool) → P (redirection (trim first) file is_append))
    → AllOf P (divide_redirection first o)
unfolding divide_redirection
divide_redirection_all P first none h = tt
divide_redirection_all P first (some rest) h = h _ _

divide_pipe_all :
    (P : Command → Type 0) (first : Text) (o : Option Text)
    → ((second : Text) (with_ampersand : Bool) → P (pipe (trim first) second with_ampersand))
    → AllOf P (divide_pipe first o)
unfolding divide_pipe
divide_pipe_all P first none h = tt
divide_pipe_all P first (some rest) h = h _ _

simple-IsFlat : (c : Command) → IsSimple c → IsFlat c
simple-IsFlat c h = ground arith

simple-IsPlain : (c : Command) → IsSimple c → IsPlain c
simple-IsPlain c h = ground arith

simple-IsNotChmod : (c : Command) → IsSimple c → IsNotChmod c
simple-IsNotChmod c h = ground arith

-- The command of a created redirection has no '>', so that a redirection stands in no other.
pub create_command-IsFlat : (cmd_line : Text) → AllOf IsFlat (create_command cmd_line)
unfolding create_redirection create_pipe
create_command-IsFlat cmd_line =
    create_all IsFlat simple-IsFlat cmd_line
      (λ has.
        divide_redirection_all IsFlat (before b'>' cmd_line) _
          (λ file is_append. trim-Lacks b'>' (before b'>' cmd_line) (before-Lacks b'>' cmd_line)))
      (λ has. divide_pipe_all IsFlat (before b'|' cmd_line) _ (λ second with_ampersand. tt))

pub create_command-IsPlain :
    (cmd_line : Text) → Lacks b'>' cmd_line → AllOf IsPlain (create_command cmd_line)
unfolding create_pipe
create_command-IsPlain cmd_line lacks =
    create_all IsPlain simple-IsPlain cmd_line
      (λ has. absurd (
        true≢false
          (sym has ∙ contains_lacked b'>' (trim cmd_line) (trim-Lacks b'>' cmd_line lacks))))
      (λ has. divide_pipe_all IsPlain (before b'|' cmd_line) _ (λ second with_ampersand. tt))

-- No line creates the command `chmod`, whatever its words: `CreateCommand` never makes one.
pub create_command-IsNotChmod : (cmd_line : Text) → AllOf IsNotChmod (create_command cmd_line)
unfolding create_redirection create_pipe
create_command-IsNotChmod cmd_line =
    create_all IsNotChmod simple-IsNotChmod cmd_line
      (λ has. divide_redirection_all IsNotChmod (before b'>' cmd_line) _ (λ file is_append. tt))
      (λ has. divide_pipe_all IsNotChmod (before b'|' cmd_line) _ (λ second with_ampersand. tt))

-- A line of `kill&` and arguments creates an external command, though `&` behind every other built-in
-- command is ignored.
pub create_command-kill_ampersand :
    (args : Text)
    → IsWord args
    → Lacks b'>' args
    → Lacks b'|' args
    → (is_bg : Bool) × (is_complex : Bool) × (create_command (codes "kill& " ++ args)
        ≡ some (
            external
              (codes "kill& " ++ args)
              (parameters (codes "kill& " ++ args))
              is_bg
              is_complex))
unfolding create_command choose_known choose
create_command-kill_ampersand [] word lacks lacks' = elim word [ ]
create_command-kill_ampersand (c ∷ s) word lacks lacks' =
    let line : Text = codes "kill& " ++ c ∷ s in
    let ends : EndsClean line = EndsClean-append (codes "kill& ") c s word.1 in
    let known = background_known line (omega arith) ends in
    let clean : trim line ≡ line = trim_clean line refl ends in
    let no_arrow : contains (b'>' ∷ []) line ≡ false = contains_lacked b'>' line (
      Lacks-append b'>' (codes "kill& ") (c ∷ s) (refl, (refl, (refl, (refl, (refl, (refl, tt))))))
        lacks) in
    let no_pipe : contains (b'|' ∷ []) line ≡ false = contains_lacked b'|' line (
      Lacks-append b'|' (codes "kill& ") (c ∷ s) (refl, (refl, (refl, (refl, (refl, (refl, tt))))))
        lacks') in
    (
      known.0,
      contains (b'?' ∷ []) line || contains (b'*' ∷ []) line,
      rw (known.1, clean, no_arrow, no_pipe, create_command, choose_known, choose),
    )
