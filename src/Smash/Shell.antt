-- ===== src/Smash/Shell.antt =====
-- `SmallShell::executeCommand`, the redirection around it and the handler of ctrl-C: Commands.cpp and
-- signals.cpp of OS_HW1_234123.
pub mod Sound
pub mod Effects
pub mod Signals
pub mod Session
pub mod Fuel
use os.Prelude.{
  ℕ, zero, suc, Bool, true, false, not, Option, none, some, List, [], ◌∷◌, ◌++◌, if◌then◌else◌,
}
use os.Prelude.Int.{ℤ, pos, ◌==ℤ◌}
use os.Text.{codes}
use os.Smash.Types.{
  Text, Shell, Command, chprompt, show_pid, get_curr_dir, change_dir, jobs_command, foreground,
  quit, kill, chmod, external, redirection, pipe, Os, later, str, num, Event, out, sends,
  redirects_to, restores_stdout, Outcome, returns, undefined, complain,
}
use os.Smash.Line.{first_not_white, create_command}
use os.Smash.Commands.{
  after_pass, pass_events, execute_chprompt, execute_show_pid, execute_get_curr_dir,
  execute_change_dir, execute_jobs, execute_foreground, execute_quit, execute_kill, execute_chmod,
  execute_external, execute_pipe,
}

-- What the redirected line does stands between the redirection and the return of the output.
unfoldable pub around : Os → (file : Text) (is_append : Bool) → Outcome → Outcome
around os file is_append (returns s es) = returns s (
    redirects_to file is_append ∷ es
    ++ (if os.restores then restores_stdout else complain (codes "smash error: dup2 failed")) ∷ [])
around os file is_append (undefined es) = undefined (redirects_to file is_append ∷ es)

unfoldable pub around_inner :
    Os → (file : Text) (is_append : Bool) → Option Outcome → Option Outcome
around_inner os file is_append none = none
around_inner os file is_append (some o) = some (around os file is_append o)

-- Where `dup` fails the file is closed.
abbrev pub dup_failed : Os → List Event
dup_failed os =
    complain (codes "smash error: dup failed")
    ∷ (if os.close_succeeds then [] else complain (codes "smash error: close failed") ∷ [])

-- `RedirectionCommand::execute`; `inner` is what `executeCommand` does with the command. Behind a
-- failed `close` the output stays redirected.
unfoldable pub execute_redirection :
    Os → (file : Text) (is_append : Bool) (inner : Option Outcome) → Shell → Option Outcome
execute_redirection os file is_append inner s =
    if not (os.opens file is_append)
    then some (returns s (complain (codes "smash error: open failed") ∷ []))
    else if not os.dup_succeeds
    then some (returns s (dup_failed os))
    else if not os.redirects
    then some (returns s (complain (codes "smash error: dup2 failed") ∷ []))
    else if not os.close_succeeds
    then some (
        returns s (redirects_to file is_append ∷ complain (codes "smash error: close failed") ∷ []))
    else around_inner os file is_append inner

-- The method `execute` of each class. `line` is `executeCommand`, for the command of a redirection.
unfoldable pub execute :
    (line : Text → Shell → Option Outcome) → Os → Command → Shell → Option Outcome
execute line os (chprompt ps) s = some (execute_chprompt ps s)
execute line os (show_pid ps) s = some (execute_show_pid s)
execute line os (get_curr_dir ps) s = some (execute_get_curr_dir os s)
execute line os (change_dir ps) s = some (execute_change_dir os ps s)
execute line os (jobs_command ps) s = some (execute_jobs os s)
execute line os (foreground ps) s = some (execute_foreground os ps s)
execute line os (quit ps) s = some (execute_quit os ps s)
execute line os (kill ps) s = some (execute_kill os ps s)
execute line os (chmod ps) s = some (execute_chmod os ps s)
execute line os (external cmd_line ps is_background is_complex) s =
    some (execute_external os cmd_line ps is_background is_complex s)
execute line os (redirection cmd_line file is_append) s =
    execute_redirection os file is_append (line cmd_line s) s
execute line os (pipe first second with_ampersand) s = some (execute_pipe os first second s)

-- What the pass before the command printed stands in front.
unfoldable pub preceded : List Event → Outcome → Outcome
preceded before (returns s es) = returns s (before ++ es)
preceded before (undefined es) = undefined (before ++ es)

abbrev pub preceded_some : List Event → Option Outcome → Option Outcome
preceded_some before none = none
preceded_some before (some o) = some (preceded before o)

abbrev pub execute_created :
    (line : Text → Shell → Option Outcome) → Os → Option Command → Shell → Option Outcome
execute_created line os none s = some (undefined [])
execute_created line os (some c) s = execute line os c s

-- A line that is not blank: the pass over the jobs, then the command, with `line` for the command of
-- a redirection.
unfoldable pub execute_nonblank :
    (line : Text → Shell → Option Outcome)
    → Os
    → (cmd_line : Text) → Option ℕ
    → Shell
    → Option Outcome
execute_nonblank line os cmd_line none s = some (returns s [])
execute_nonblank line os cmd_line (some i) s =
    preceded_some (pass_events os s)
      (execute_created line (later os) (create_command cmd_line) (after_pass os s))

-- `SmallShell::executeCommand`. `none` means that the fuel for redirections inside a redirection ran
-- out.
unfoldable pub execute_command : (fuel : ℕ) → Os → (cmd_line : Text) → Shell → Option Outcome
execute_command zero os cmd_line s = none
execute_command (suc fuel) os cmd_line s =
    execute_nonblank (execute_command fuel (later os)) os cmd_line (first_not_white cmd_line) s

-- `ctrlCHandler`
unfoldable pub ctrl_c : Os → Shell → Shell × List Event
ctrl_c os s =
    let got = out (str (codes "smash: got ctrl-C") ∷ []) in
    if s.foreground_command_pid ==ℤ s.pid
    then (s, got ∷ [])
    else if os.kill_succeeds s.foreground_command_pid (pos 9)
    then (
      record s { foreground_command_pid = s.pid },
      got
          ∷ sends s.foreground_command_pid (pos 9)
          ∷ out (
              str (codes "smash: process ")
              ∷ num s.foreground_command_pid
              ∷ str (codes " was killed")
              ∷ [])
          ∷ [],
    )
    else (s, got ∷ complain (codes "smash error: kill failed\n") ∷ [])

-- How the loop of `main` goes on behind a line.
unfoldable pub go_on : List Event → (Shell → Option Outcome) → Option Outcome → Option Outcome
go_on before rest none = none
go_on before rest (some (undefined es)) = some (undefined (before ++ es))
go_on before rest (some (returns t es)) = preceded_some (before ++ es) (rest t)

-- The loop of `main` over the lines that are read, with the results of the system calls for each:
-- the events of each line behind the prompt, up to one that is undefined.
unfoldable pub session : (fuel : ℕ) → List (Os × Text) → Shell → Option Outcome
session fuel [] s = some (returns s [])
session fuel ((os, line) ∷ lines) s =
    go_on (out (str s.prompt ∷ []) ∷ []) (session fuel lines) (execute_command fuel os line s)
