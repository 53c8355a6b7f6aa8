-- ===== src/Smash/Line/Dispatch.antt =====
-- Lines with a redirection or a pipe, and how CreateCommand of OS_HW1_234123/Commands.cpp divides them.
use os.Prelude.{
  ℕ, suc, ◌<◌, ◌≡◌, refl, sym, subst, ap, ◌∙◌, Bool, true, false, some, [], ◌∷◌, ◌++◌, arith, ◌==◌,
  append_assoc, append-nil, length, get_elem?_total,
}
use os.Text.{contains, before, after?}
use os.Smash.Types.{Text, redirection, pipe}
use os.Smash.Line.{
  before_end, last_not_white, is_background_command, trim, strip_sign, create_redirection,
  divide_redirection, create_pipe, divide_pipe, choose, choose_known, create_command,
}
use os.Smash.Line.Trim.{StartsClean, EndsClean, trim_between, trim_clean}

-- A text that is not empty and has no white space at its ends.
abbrev pub IsWord : Text → Type 0
IsWord [] = ⊥
IsWord (c ∷ s) = StartsClean (c ∷ s) × EndsClean (c ∷ s)

-- The character is not in the text.
abbrev pub Lacks : ℕ → Text → Type 0
Lacks sign [] = Unit {0}
Lacks sign (c ∷ s) = ((c == sign) ≡ false) × Lacks sign s

before-append : (sign : ℕ) (s t : Text) → Lacks sign s → before sign (s ++ sign ∷ t) ≡ s
before-append sign [] t h = ground arith
before-append sign (c ∷ s) t h = rw h.0 (ap (λ r. c ∷ r) (before-append sign s t h.1))

after-append : (sign : ℕ) (s t : Text) → Lacks sign s → after? sign (s ++ sign ∷ t) ≡ some t
after-append sign [] t h = ground arith
after-append sign (c ∷ s) t h = rw h.0 (after-append sign s t h.1)

contains-append : (sign : ℕ) (s t : Text) → contains (sign ∷ []) (s ++ sign ∷ t) ≡ true
contains-append sign [] t = ground arith
contains-append sign (c ∷ s) t = ground (arith, contains-append sign s t)

pub EndsClean-append : (s : Text) (c : ℕ) (t : Text) → EndsClean (c ∷ t) → EndsClean (s ++ c ∷ t)
EndsClean-append [] c t h = h
EndsClean-append (a ∷ []) c t h = h
EndsClean-append (a ∷ b ∷ s) c t h = EndsClean-append (b ∷ s) c t h

last_of_clean :
    (c : ℕ) (s : Text)
    → EndsClean (c ∷ s)
    → (i : ℕ) × (last_not_white (c ∷ s) ≡ some i) × (i < length (c ∷ s))
last_of_clean c [] h = (0, rw h, omega arith)
last_of_clean c (d ∷ s) h =
    let (i, e, lt) = last_of_clean d s h in (suc i, ap (before_end c) e, omega (arith, lt))

is_background_some :
    (c : ℕ) (s : Text) → EndsClean (c ∷ s) → (b : Bool) × (is_background_command (c ∷ s) ≡ some b)
unfolding is_background_command
is_background_some c s h =
    let (i, e, lt) = last_of_clean c s h in
    let (a, e') = get_elem?_total (c ∷ s) i lt in (a == b'&', rw (e, e', is_background_command))

-- What stands behind the dividing character: a further sign or none, a space, and the second part.
abbrev pub signed : (sign : ℕ) (with_sign : Bool) (second : Text) → Text
signed sign false second = 32 ∷ second
signed sign true second = sign ∷ 32 ∷ second

trim_front : (s : Text) → IsWord s → trim (32 ∷ s) ≡ s
trim_front [] h = elim h [ ]
trim_front (c ∷ s) h =
    ap (λ t. trim (32 ∷ t)) (sym (append-nil (c ∷ s)))
    ∙ trim_between (32 ∷ []) c s [] (refl, tt) h.0 h.1 tt

trim_back : (s : Text) → IsWord s → trim (s ++ 32 ∷ []) ≡ s
trim_back [] h = elim h [ ]
trim_back (c ∷ s) h = trim_between [] c s (32 ∷ []) tt h.0 h.1 (refl, tt)

pub Lacks-append : (sign : ℕ) (s t : Text) → Lacks sign s → Lacks sign t → Lacks sign (s ++ t)
Lacks-append sign [] t h k = k
Lacks-append sign (c ∷ s) t h k = (h.0, Lacks-append sign s t h.1 k)

pub contains_lacked : (sign : ℕ) (s : Text) → Lacks sign s → contains (sign ∷ []) s ≡ false
contains_lacked sign [] h = refl
contains_lacked sign (c ∷ s) h = ground (arith, contains_lacked sign s, h.0, h.1)

-- The space in front of the sign belongs to the first part.
space_first :
    (first : Text) (sign : ℕ) (t : Text) → first ++ 32 ∷ sign ∷ t ≡ (first ++ 32 ∷ []) ++ sign ∷ t
space_first first sign t = sym (append_assoc first (32 ∷ []) (sign ∷ t))

create_redirection_lem :
    (first t : Text)
    → Lacks b'>' first
    → create_redirection (first ++ 32 ∷ b'>' ∷ t)
      ≡ some
          (redirection (trim (first ++ 32 ∷ [])) (trim (strip_sign b'>' t).1) (strip_sign b'>' t).0)
unfolding create_redirection divide_redirection
create_redirection_lem first t lacks =
    let lacks' = Lacks-append b'>' first (32 ∷ []) lacks (refl, tt) in
    ap create_redirection (space_first first b'>' t)
    ∙ rw
        (
          after-append b'>' (first ++ 32 ∷ []) t lacks',
          before-append b'>' (first ++ 32 ∷ []) t lacks',
        )
        refl

create_pipe_lem :
    (first t : Text)
    → Lacks b'|' first
    → create_pipe (first ++ 32 ∷ b'|' ∷ t)
      ≡ some (pipe (trim (first ++ 32 ∷ [])) (trim (strip_sign b'&' t).1) (strip_sign b'&' t).0)
unfolding create_pipe divide_pipe
create_pipe_lem first t lacks =
    let lacks' = Lacks-append b'|' first (32 ∷ []) lacks (refl, tt) in
    ap create_pipe (space_first first b'|' t)
    ∙ rw
        (
          after-append b'|' (first ++ 32 ∷ []) t lacks',
          before-append b'|' (first ++ 32 ∷ []) t lacks',
        )
        refl

EndsClean-both : (s t : Text) (c : ℕ) (u : Text) → EndsClean (c ∷ u) → EndsClean (s ++ (t ++ c ∷ u))
EndsClean-both s t c u h =
    subst EndsClean (append_assoc s t (c ∷ u)) (EndsClean-append (s ++ t) c u h)

-- A line from word to word.
line_clean :
    (first : Text) (t : Text) (second : Text)
    → IsWord first
    → IsWord second
    → StartsClean (first ++ (t ++ second)) × EndsClean (first ++ (t ++ second))
line_clean [] t second h k = elim h [ ]
line_clean (a ∷ first) t [] h k = elim k [ ]
line_clean (a ∷ first) t (c ∷ second) h k = (h.0, EndsClean-both (a ∷ first) t c second k.1)

-- A line of which no character is undefined.
pub background_known :
    (s : Text) → (0 < length s) → EndsClean s → (b : Bool) × (is_background_command s ≡ some b)
background_known [] pos h = elim pos [ ]
background_known (c ∷ s) pos h = is_background_some c s h

-- A clean line with a '>' creates a redirection, and one with a '|' and no '>' a pipe.
creates_redirection :
    (s : Text)
    → 0 < length s
    → StartsClean s × EndsClean s
    → contains (b'>' ∷ []) s ≡ true
    → create_command s ≡ create_redirection s
unfolding create_command choose_known choose
creates_redirection s pos clean has =
    let (b, known) = background_known s pos clean.1 in
    rw (known, trim_clean s clean.0 clean.1, has, create_command, choose)

creates_pipe :
    (s : Text)
    → 0 < length s
    → StartsClean s × EndsClean s
    → contains (b'>' ∷ []) s ≡ false
    → contains (b'|' ∷ []) s ≡ true
    → create_command s ≡ create_pipe s
unfolding create_command choose_known choose
creates_pipe s pos clean lacks has =
    let (b, known) = background_known s pos clean.1 in
    rw (known, trim_clean s clean.0 clean.1, lacks, has, create_command, choose)

word_length : (s t : Text) → IsWord s → 0 < length (s ++ t)
word_length [] t h = elim h [ ]
word_length (c ∷ s) t h = omega arith

line_parts :
    (first second : Text) (sign sign' : ℕ) (with_sign : Bool)
    → IsWord first
    → IsWord second
    → StartsClean (first ++ 32 ∷ sign ∷ signed sign' with_sign second)
      × EndsClean (first ++ 32 ∷ sign ∷ signed sign' with_sign second)
line_parts first second sign sign' false h k = line_clean first (32 ∷ sign ∷ 32 ∷ []) second h k
line_parts first second sign sign' true h k =
    line_clean first (32 ∷ sign ∷ sign' ∷ 32 ∷ []) second h k

has_sign : (first t : Text) (sign : ℕ) → contains (sign ∷ []) (first ++ 32 ∷ sign ∷ t) ≡ true
has_sign first t sign =
    ap (contains (sign ∷ [])) (space_first first sign t) ∙ contains-append sign (first ++ 32 ∷ []) t

divided_redirection :
    (first file : Text) (is_append : Bool)
    → IsWord first
    → IsWord file
    → redirection
        (trim (first ++ 32 ∷ []))
        (trim (strip_sign b'>' (signed b'>' is_append file)).1)
        (strip_sign b'>' (signed b'>' is_append file)).0
      ≡ redirection first file is_append
divided_redirection first file false h k = rw (trim_back first h, trim_front file k)
divided_redirection first file true h k = rw (trim_back first h, trim_front file k)

divided_pipe :
    (first second : Text) (with_ampersand : Bool)
    → IsWord first
    → IsWord second
    → pipe
        (trim (first ++ 32 ∷ []))
        (trim (strip_sign b'&' (signed b'&' with_ampersand second)).1)
        (strip_sign b'&' (signed b'&' with_ampersand second)).0
      ≡ pipe first second with_ampersand
divided_pipe first second false h k = rw (trim_back first h, trim_front second k)
divided_pipe first second true h k = rw (trim_back first h, trim_front second k)

-- A line of a command without '>', then '>' or '>>', then a file name creates the redirection of
-- that command to that file, with `>>` the appending one.
pub create_command-redirection :
    (first file : Text) (is_append : Bool)
    → IsWord first
    → Lacks b'>' first
    → IsWord file
    → create_command (first ++ 32 ∷ b'>' ∷ signed b'>' is_append file)
      ≡ some (redirection first file is_append)
create_command-redirection first file is_append h lacks k =
    creates_redirection _ (word_length first _ h) (line_parts first file b'>' b'>' is_append h k)
      (has_sign first _ b'>')
    ∙ create_redirection_lem first (signed b'>' is_append file) lacks
    ∙ ap some (divided_redirection first file is_append h k)

signed-Lacks :
    (second : Text) (with_ampersand : Bool)
    → Lacks b'>' second
    → Lacks b'>' (32 ∷ b'|' ∷ signed b'&' with_ampersand second)
signed-Lacks second false h = (refl, (refl, (refl, h)))
signed-Lacks second true h = (refl, (refl, (refl, (refl, h))))

-- A line of two commands without '>' and '|' or '|&' between them creates their pipe; the second
-- command may hold further pipes.
pub create_command-pipe :
    (first second : Text) (with_ampersand : Bool)
    → IsWord first
    → Lacks b'|' first
    → Lacks b'>' first
    → IsWord second
    → Lacks b'>' second
    → create_command (first ++ 32 ∷ b'|' ∷ signed b'&' with_ampersand second)
      ≡ some (pipe first second with_ampersand)
create_command-pipe first second with_ampersand h lacks lacks_first k lacks_second =
    creates_pipe _ (word_length first _ h) (line_parts first second b'|' b'&' with_ampersand h k)
      (contains_lacked b'>' _
        (Lacks-append b'>' first _ lacks_first (signed-Lacks second with_ampersand lacks_second)))
      (has_sign first _ b'|')
    ∙ create_pipe_lem first (signed b'&' with_ampersand second) lacks
    ∙ ap some (divided_pipe first second with_ampersand h k)
