-- ===== src/Smash/Line.antt =====
-- How OS_HW1_234123/Commands.cpp takes a command line apart.
pub mod Trim
pub mod Dispatch
pub mod Classes
use os.Prelude.{
  ℕ, zero, suc, ◌+◌, ◌-◌, ◌*◌, Bool, true, false, not, ◌&&◌, ◌||◌, Option, none, some, List, [],
  ◌∷◌, ◌++◌, ◌==◌, leb, ltb, if◌then◌else◌, take, drop, set, get_elem?,
}
use os.Prelude.Int.{ℤ, pos, negsuc}
use os.Text.{codes, str_eq, contains, before, after?, words}
use os.Smash.Types.{
  Text, Command, chprompt, show_pid, get_curr_dir, change_dir, jobs_command, foreground, quit, kill,
  external, redirection, pipe,
}

-- A character of WHITESPACE.
abbrev pub is_white : ℕ → Bool
is_white c = (c == 32) || (leb 9 c && leb c 13)

abbrev pub next : Option ℕ → Option ℕ
next none = none
next (some i) = some (suc i)

-- `find_first_not_of(WHITESPACE)` and `find_last_not_of(WHITESPACE)`
abbrev pub first_not_white : Text → Option ℕ
first_not_white [] = none
first_not_white (c ∷ s) = let rest = next (first_not_white s) in if is_white c then rest else some 0

abbrev pub before_end : ℕ → Option ℕ → Option ℕ
before_end c none = if is_white c then none else some 0
before_end c (some i) = some (suc i)

abbrev pub last_not_white : Text → Option ℕ
last_not_white [] = none
last_not_white (c ∷ s) = before_end c (last_not_white s)

-- `substr`, with the empty text for `npos`.
abbrev pub text_from : Text → Option ℕ → Text
text_from s none = []
text_from s (some start) = drop start s

abbrev pub text_to : Text → Option ℕ → Text
text_to s none = []
text_to s (some end) = take (suc end) s

unfoldable pub ltrim : Text → Text
ltrim s = text_from s (first_not_white s)

unfoldable pub rtrim : Text → Text
rtrim s = text_to s (last_not_white s)

unfoldable pub trim : Text → Text
trim s = rtrim (ltrim s)

-- The arguments; their number is what `_parseCommandLine` returns.
unfoldable pub parse_command_line : Text → List Text
parse_command_line cmd_line = words (trim cmd_line)

-- `none` is the read of a character that is not there.
unfoldable pub is_background_command : Text → Option Bool
is_background_command str = elim (last_not_white str) [
  | none ↦ none
  | some i ↦ elim (get_elem? str i) [ none ↦ none | some c ↦ some (c == b'&') ]
]

-- The text that is left in the buffer; `none` is the read behind the end of a blank line, for which
-- the test against `npos`, of another width, does not hold.
unfoldable pub remove_background_sign : Text → Option Text
remove_background_sign str = elim (last_not_white str) [
  | none ↦ none
  | some idx ↦ elim (get_elem? str idx) [
    | none ↦ none
    | some c ↦
        if not (c == b'&')
        then some str
        else some (
            take (elim (last_not_white (take (idx + 1) str)) [ none ↦ 0 | some i ↦ i + 1 ])
              (set str idx 32))
  ]
]

-- The loop of the constructor `Command` that erases each '&'.
unfoldable pub erase_ampersands : Text → Text
erase_ampersands [] = []
erase_ampersands (c ∷ s) = let rest = erase_ampersands s in if c == b'&' then rest else c ∷ rest

-- The parameters that the constructor `Command` stores.
unfoldable pub parameters : Text → List Text
parameters cmd_line = parse_command_line (trim (erase_ampersands cmd_line))

-- The text up to the first ' ' or '\n'.
abbrev pub first_word : Text → Text
first_word [] = []
first_word (c ∷ s) = let rest = first_word s in if (c == 32) || (c == b'\n') then [] else c ∷ rest

-- A sign behind the dividing character, which the two constructors below look for.
abbrev pub strip_sign : ℕ → Text → Bool × Text
strip_sign sign [] = (false, [])
strip_sign sign (c ∷ s) = if c == sign then (true, s) else (false, c ∷ s)

-- The text in front of the dividing character, and the one behind it.
unfoldable pub divide_redirection : Text → Option Text → Option Command
divide_redirection first none = none
divide_redirection first (some rest) =
    let (is_append, file) = strip_sign b'>' rest in
    some (redirection (trim first) (trim file) is_append)

-- `RedirectionCommand::RedirectionCommand`, on a line that has a '>'.
unfoldable pub create_redirection : Text → Option Command
create_redirection cmd_line = divide_redirection (before b'>' cmd_line) (after? b'>' cmd_line)

unfoldable pub divide_pipe : Text → Option Text → Option Command
divide_pipe first none = none
divide_pipe first (some rest) =
    let (with_ampersand, second) = strip_sign b'&' rest in
    some (pipe (trim first) (trim second) with_ampersand)

-- `PipeCommand::PipeCommand`, on a line that has a '|'.
unfoldable pub create_pipe : Text → Option Command
create_pipe cmd_line = divide_pipe (before b'|' cmd_line) (after? b'|' cmd_line)

-- `firstWord.compare(name) == 0 || firstWord.compare(name&) == 0`
abbrev pub is_named : Text → Text → Bool
is_named name word = str_eq word name || str_eq word (name ++ b'&' ∷ [])

-- The class of a line by its characters and its first word.
unfoldable pub choose : (cmd_line : Text) (is_bg : Bool) → Option Command
choose cmd_line is_bg =
    let cmd_s = trim cmd_line in
    let word = first_word cmd_s in
    let args = parameters cmd_line in
    if contains (b'>' ∷ []) cmd_s
    then create_redirection cmd_line
    else if contains (b'|' ∷ []) cmd_s
    then create_pipe cmd_line
    else if is_named (codes "chprompt") word
    then some (chprompt args)
    else if is_named (codes "showpid") word
    then some (show_pid args)
    else if is_named (codes "pwd") word
    then some (get_curr_dir args)
    else if is_named (codes "cd") word
    then some (change_dir args)
    else if is_named (codes "jobs") word
    then some (jobs_command args)
    else if is_named (codes "fg") word
    then some (foreground args)
    else if is_named (codes "quit") word
    then some (quit args)
    else if str_eq word (codes "kill") || str_eq word (codes "kill")
    then some (kill args)
    else some
        (external cmd_line args is_bg (contains (b'?' ∷ []) cmd_s || contains (b'*' ∷ []) cmd_s))

unfoldable pub choose_known : (cmd_line : Text) → Option Bool → Option Command
choose_known cmd_line none = none
choose_known cmd_line (some is_bg) = choose cmd_line is_bg

-- `none` is an undefined read of `_isBackgroundComamnd`.
unfoldable pub create_command : Text → Option Command
create_command cmd_line = choose_known cmd_line (is_background_command cmd_line)
