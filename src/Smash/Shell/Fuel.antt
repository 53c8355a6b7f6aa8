-- ===== src/Smash/Shell/Fuel.antt =====
-- The fuel of the sessions of OS_HW1_234123/Commands.cpp: redirections inside redirections.
use os.Prelude.{ℕ, suc, ◌≡◌, refl, Bool, not, Option, none, some, List, [], ◌∷◌, of_both}
use os.Prelude.Int.{ℤ}
use os.Smash.Types.{
  Text, Shell, Command, chprompt, show_pid, get_curr_dir, change_dir, jobs_command, foreground,
  quit, kill, chmod, external, redirection, pipe, Os, later, Event, Outcome, returns, undefined,
}
use os.Smash.Line.{first_not_white, create_command}
use os.Smash.Line.Dispatch.{Lacks}
use os.Smash.Line.Classes.{AllOf, IsPlain, IsFlat, create_command-IsFlat, create_command-IsPlain}
use os.Smash.Commands
use os.Smash.Shell.{
  around_inner, execute_redirection, execute, preceded_some, execute_created, execute_nonblank,
  execute_command, go_on, session,
}
use os.Smash.Shell.Sound.{Keeps, KeepsSome}
use os.Smash.Shell.Session.{session-Keeps}

abbrev pub IsSome : Option Outcome → Type 0
IsSome none = ⊥
IsSome (some o) = Unit

preceded-IsSome :
    (before : List Event) (o : Option Outcome) → IsSome o → IsSome (preceded_some before o)
preceded-IsSome before none h = h
preceded-IsSome before (some o) h = tt

around_inner-IsSome :
    (os : Os) (file : Text) (is_append : Bool) (o : Option Outcome)
    → IsSome o
    → IsSome (around_inner os file is_append o)
unfolding around_inner
around_inner-IsSome os file is_append none h = h
around_inner-IsSome os file is_append (some o) h = tt

redirection-IsSome :
    (os : Os) (file : Text) (is_append : Bool) (inner : Option Outcome) (s : Shell)
    → IsSome inner
    → IsSome (execute_redirection os file is_append inner s)
unfolding execute_redirection
redirection-IsSome os file is_append inner s h =
    of_both IsSome (not (os.opens file is_append)) _ _ tt (
      of_both IsSome (not os.dup_succeeds) _ _ tt (
        of_both IsSome (not os.redirects) _ _ tt (
          of_both IsSome (not os.close_succeeds) _ _ tt
            (around_inner-IsSome os file is_append inner h))))

-- A command ends if its redirected line does.
abbrev Inner : (Text → Shell → Option Outcome) → Shell → Command → Type 0
Inner line s (redirection cmd_line file is_append) = IsSome (line cmd_line s)
Inner line s c = Unit

execute-IsSome :
    (line : Text → Shell → Option Outcome) (os : Os) (c : Command) (s : Shell)
    → Inner line s c
    → IsSome (execute line os c s)
unfolding execute
execute-IsSome line os (chprompt ps) s h = tt
execute-IsSome line os (show_pid ps) s h = tt
execute-IsSome line os (get_curr_dir ps) s h = tt
execute-IsSome line os (change_dir ps) s h = tt
execute-IsSome line os (jobs_command ps) s h = tt
execute-IsSome line os (foreground ps) s h = tt
execute-IsSome line os (quit ps) s h = tt
execute-IsSome line os (kill ps) s h = tt
execute-IsSome line os (chmod ps) s h = tt
execute-IsSome line os (external cmd_line ps b c) s h = tt
execute-IsSome line os (pipe first second w) s h = tt
execute-IsSome line os (redirection cmd_line file is_append) s h =
    redirection-IsSome os file is_append (line cmd_line s) s h

created-IsSome :
    (line : Text → Shell → Option Outcome) (os : Os) (o : Option Command) (s : Shell)
    → AllOf (Inner line s) o
    → IsSome (execute_created line os o s)
created-IsSome line os none s h = tt
created-IsSome line os (some c) s h = execute-IsSome line os c s h

nonblank-IsSome :
    (line : Text → Shell → Option Outcome) (os : Os) (cmd_line : Text) (o : Option ℕ) (s : Shell)
    → AllOf (Inner line (Commands.after_pass os s)) (create_command cmd_line)
    → IsSome (execute_nonblank line os cmd_line o s)
unfolding execute_nonblank
nonblank-IsSome line os cmd_line none s h = tt
nonblank-IsSome line os cmd_line (some i) s h =
    preceded-IsSome (Commands.pass_events os s) _
      (created-IsSome line (later os) (create_command cmd_line) (Commands.after_pass os s) h)

plain-Inner :
    (line : Text → Shell → Option Outcome) (s : Shell) (o : Option Command)
    → AllOf IsPlain o
    → AllOf (Inner line s) o
plain-Inner line s none h = tt
plain-Inner line s (some (redirection cmd_line file is_append)) h = elim h [ ]
plain-Inner line s (some (chprompt ps)) h = tt
plain-Inner line s (some (show_pid ps)) h = tt
plain-Inner line s (some (get_curr_dir ps)) h = tt
plain-Inner line s (some (change_dir ps)) h = tt
plain-Inner line s (some (jobs_command ps)) h = tt
plain-Inner line s (some (foreground ps)) h = tt
plain-Inner line s (some (quit ps)) h = tt
plain-Inner line s (some (kill ps)) h = tt
plain-Inner line s (some (chmod ps)) h = tt
plain-Inner line s (some (external cmd_line ps b c)) h = tt
plain-Inner line s (some (pipe first second w)) h = tt

flat-Inner :
    (line : Text → Shell → Option Outcome) (s : Shell) (o : Option Command)
    → ((t : Text) → Lacks b'>' t → IsSome (line t s))
    → AllOf IsFlat o
    → AllOf (Inner line s) o
flat-Inner line s none ends h = tt
flat-Inner line s (some (redirection cmd_line file is_append)) ends h = ends cmd_line h
flat-Inner line s (some (chprompt ps)) ends h = tt
flat-Inner line s (some (show_pid ps)) ends h = tt
flat-Inner line s (some (get_curr_dir ps)) ends h = tt
flat-Inner line s (some (change_dir ps)) ends h = tt
flat-Inner line s (some (jobs_command ps)) ends h = tt
flat-Inner line s (some (foreground ps)) ends h = tt
flat-Inner line s (some (quit ps)) ends h = tt
flat-Inner line s (some (kill ps)) ends h = tt
flat-Inner line s (some (chmod ps)) ends h = tt
flat-Inner line s (some (external cmd_line ps b c)) ends h = tt
flat-Inner line s (some (pipe first second w)) ends h = tt

inner_line_ends :
    (fuel : ℕ) (os : Os) (cmd_line : Text) (s : Shell)
    → Lacks b'>' cmd_line
    → IsSome (execute_command (suc fuel) os cmd_line s)
unfolding execute_command
inner_line_ends fuel os cmd_line s lacks =
    nonblank-IsSome (execute_command fuel (later os)) os cmd_line (first_not_white cmd_line) s (
      plain-Inner (execute_command fuel (later os)) (Commands.after_pass os s)
        (create_command cmd_line) (create_command-IsPlain cmd_line lacks))

line_ends :
    (fuel : ℕ) (os : Os) (cmd_line : Text) (s : Shell)
    → IsSome (execute_command (suc (suc fuel)) os cmd_line s)
line_ends fuel os cmd_line s =
    unfold execute_command in
    nonblank-IsSome (execute_command (suc fuel) (later os)) os cmd_line (first_not_white cmd_line) s
      (flat-Inner (execute_command (suc fuel) (later os)) (Commands.after_pass os s)
        (create_command cmd_line)
        (λ t lacks. inner_line_ends fuel (later os) t (Commands.after_pass os s) lacks)
        (create_command-IsFlat cmd_line))

go_on-IsSome :
    (before : List Event) (rest : Shell → Option Outcome) (o : Option Outcome)
    → ((t : Shell) → IsSome (rest t))
    → IsSome o
    → IsSome (go_on before rest o)
unfolding go_on
go_on-IsSome before rest none h i = i
go_on-IsSome before rest (some (undefined es)) h i = tt
go_on-IsSome before rest (some (returns t es)) h i = preceded-IsSome _ _ (h t)

session_ends :
    (fuel : ℕ) (lines : List (Os × Text)) (s : Shell) → IsSome (session (suc (suc fuel)) lines s)
unfolding session
session_ends fuel [] s = tt
session_ends fuel ((os, line) ∷ lines) s =
    go_on-IsSome _ (session (suc (suc fuel)) lines) _ (session_ends fuel lines)
      (line_ends fuel os line s)

kept_outcome :
    (pid : ℤ) (o : Option Outcome)
    → IsSome o
    → KeepsSome pid o
    → (r : Outcome) × (o ≡ some r) × Keeps pid r
kept_outcome pid none h k = elim h [ ]
kept_outcome pid (some r) h k = (r, refl, k)

-- Every session has an outcome with fuel 2 or more, whatever the lines and whatever the system calls
-- return. If no line met the use of memory that is undefined, as each `quit` does, the shell is itself
-- in the foreground, and the ids of its jobs ascend, stay below `max_index`, and are those of at most
-- MAX_JOBS_NUM jobs.
pub session-outcome :
    (pid : ℤ) (fuel : ℕ) (lines : List (Os × Text))
    → (r : Outcome) × (session (suc (suc fuel)) lines (Commands.new_shell pid) ≡ some r)
      × Keeps pid r
session-outcome pid fuel lines =
    kept_outcome pid _ (session_ends fuel lines (Commands.new_shell pid))
      (session-Keeps pid (suc (suc fuel)) lines)
