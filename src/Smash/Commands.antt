-- ===== src/Smash/Commands.antt =====
-- The `execute` functions of OS_HW1_234123/Commands.cpp.
pub mod Numbers
pub mod Modes
use os.Prelude.{
  ℕ, zero, suc, ◌+◌, ◌*◌, Bool, true, false, not, ◌&&◌, ◌||◌, Option, none, some, List, [], ◌∷◌,
  ◌++◌, ◌==◌, leb, ltb, if◌then◌else◌, length,
}
use os.Prelude.Int.{ℤ, pos, negsuc, neg_part, ltb_ℤ, leb_ℤ, ◌==ℤ◌}
use os.Text.{codes, str_eq}
use os.Smash.Types.{
  Text, JobEntry, JobsList, max_jobs_num, Shell, Waited, wait_failed, ended, stopped, Os, later,
  str, num, Event, out, err, sends, starts, spawns, waits, changes_dir, changes_mode, redirects_to,
  restores_stdout, Outcome, returns, undefined, complain,
}
use os.Smash.Jobs.{
  remove_finished_jobs, remove_finished_events, add_job, get_job_by_id, get_last_job,
  remove_job_by_id, list_lines, kill_all_jobs,
}
use Numbers.{stoi, stoi_exact, mode_of}

abbrev pub default_prompt : Text
default_prompt = codes "smash> "

-- What `last_working_directory` is before the first `cd`.
abbrev pub no_directory : Text
no_directory = codes "noot a valid directory girls"

-- `SmallShell::SmallShell`
unfoldable pub new_shell : (pid : ℤ) → Shell
new_shell pid = record {
  pid = pid;
  prompt = default_prompt;
  last_working_directory = no_directory;
  foreground_command_pid = pid;
  jobs = record { jobs_list = []; max_index = pos 1; cur_size = pos 0 };
}

unfoldable pub execute_chprompt : List Text → Shell → Outcome
execute_chprompt [] s = undefined []
execute_chprompt (name ∷ []) s = returns (record s { prompt = default_prompt }) []
execute_chprompt (name ∷ p ∷ ps) s = returns (record s { prompt = p ++ codes "> " }) []

unfoldable pub execute_show_pid : Shell → Outcome
execute_show_pid s = returns s (out (str (codes "smash pid is ") ∷ num s.pid ∷ []) ∷ [])

-- What is done with the result of `getcwd`.
abbrev pub with_directory : Option Text → (Text → Outcome) → Shell → Outcome
with_directory none rest s = returns s (complain (codes "smash error: getcwd failed") ∷ [])
with_directory (some here) rest s = rest here

-- `malloc` and `getcwd` as the shell calls them: the directory, or what it prints.
abbrev pub directory : Os → (Text → Outcome) → Shell → Outcome
directory os rest s =
    if os.malloc_succeeds
    then with_directory os.getcwd rest s
    else returns s (complain (codes "smash error: malloc failed") ∷ [])

unfoldable pub execute_get_curr_dir : Os → Shell → Outcome
execute_get_curr_dir os s = directory os (λ here. returns s (out (str here ∷ []) ∷ [])) s

-- `chdir` and what follows it.
unfoldable pub enter : Os → (path here : Text) → Shell → Outcome
enter os path here s =
    if os.chdir_succeeds path
    then returns (record s { last_working_directory = here }) (changes_dir path ∷ [])
    else returns s (complain (codes "smash error: chdir failed") ∷ [])

-- The first call of `getcwd`, whose result is not used, then the one whose result is kept.
unfoldable pub change_to : Os → (path : Text) → Shell → Outcome
change_to os path s =
    with_directory os.getcwd (λ first. directory os (λ here. enter os path here s) s) s

unfoldable pub execute_change_dir : Os → List Text → Shell → Outcome
execute_change_dir os [] s = undefined []
execute_change_dir os (name ∷ []) s = returns s []
execute_change_dir os (name ∷ dir ∷ []) s =
    if str_eq dir (codes "-")
    then if str_eq s.last_working_directory no_directory
      then returns s (complain (codes "smash error: cd: OLDPWD not set") ∷ [])
      else change_to os s.last_working_directory s
    else change_to os dir s
execute_change_dir os (name ∷ dir ∷ more ∷ ps) s =
    returns s (complain (codes "smash error: cd: too many arguments") ∷ [])

-- A pass over the jobs, and what it prints.
abbrev pub after_pass : Os → Shell → Shell
after_pass os s = record s { jobs = remove_finished_jobs (os.wait_nohang 0) s.jobs }

abbrev pub pass_events : Os → Shell → List Event
pass_events os s = remove_finished_events (os.wait_nohang 0) s.jobs

unfoldable pub execute_jobs : Os → Shell → Outcome
execute_jobs os s =
    returns (after_pass os s) (pass_events os s ++ list_lines (after_pass os s).jobs.jobs_list)

abbrev pub is_kill : List Text → Bool
is_kill [] = false
is_kill (name ∷ []) = false
is_kill (name ∷ p ∷ ps) = str_eq p (codes "kill")

-- `delete this` stands in front of `exit`: `~Command` starts with the element `parametrs[20]`, behind
-- the end of an array of 20.
unfoldable pub execute_quit : Os → List Text → Shell → Outcome
execute_quit os ps s =
    if is_kill ps
    then undefined (
        out (
          str (codes "smash: sending SIGKILL signal to ")
          ∷ num s.jobs.cur_size
          ∷ str (codes " jobs:")
          ∷ [])
        ∷ (kill_all_jobs os.kill_succeeds s.jobs.jobs_list).0)
    else undefined []

-- The end of `fg`, by how the wait ended. The shell is in the foreground again.
unfoldable pub after_wait : Waited → (id : ℤ) → Shell → List Event → Outcome
after_wait wait_failed id s es =
    returns s (es ++ complain (codes "smash error: waitpid failed") ∷ [])
after_wait ended id s es = returns (record s { jobs = remove_job_by_id id s.jobs }) es
after_wait stopped id s es = returns s es

-- The job is brought to the foreground.
unfoldable pub bring : Os → (id : ℤ) → JobEntry → Shell → List Event → Outcome
bring os id j s es =
    after_wait (os.wait_untraced j.job_pid) id (record s { foreground_command_pid = s.pid })
      (es ++ (out (str j.cmd ∷ str (codes " ") ∷ num j.job_pid ∷ []) ∷ waits j.job_pid ∷ []))

abbrev pub no_such_job : ℤ → Event
no_such_job id =
    err (str (codes "smash error: fg: job-id ") ∷ num id ∷ str (codes " does not exist") ∷ [])

-- `fg` with an id that is a number, behind the tests of its range; `more` says whether there are
-- further arguments.
unfoldable pub bring_known :
    Os → (id : ℤ) (more : Bool) → Option JobEntry → Shell → List Event → Outcome
bring_known os id more none s es = returns s (es ++ no_such_job id ∷ [])
bring_known os id more (some j) s es =
    if more
    then returns s (es ++ complain (codes "smash error: fg: invalid arguments") ∷ [])
    else bring os id j s es

unfoldable pub bring_by_id : Os → Option ℤ → (more : Bool) → Shell → List Event → Outcome
bring_by_id os none more s es =
    returns s (es ++ complain (codes "smash error: fg: invalid arguments") ∷ [])
bring_by_id os (some id) more s es =
    if ltb_ℤ id (pos 1) || ltb_ℤ max_jobs_num id
    then returns s (es ++ no_such_job id ∷ [])
    else if ltb_ℤ s.jobs.max_index id
    then returns s (es ++ no_such_job id ∷ [])
    else bring_known os id more (get_job_by_id id s.jobs.jobs_list) s es

unfoldable pub bring_last : Os → ℤ × Option JobEntry → Shell → List Event → Outcome
bring_last os (id, none) s es =
    returns s (es ++ complain (codes "smash error: fg: jobs list is empty") ∷ [])
bring_last os (id, some j) s es = bring os id j s es

abbrev pub is_nil : List Text → Bool
is_nil [] = true
is_nil (p ∷ ps) = false

unfoldable pub execute_foreground : Os → List Text → Shell → Outcome
execute_foreground os [] s = undefined (pass_events os s)
execute_foreground os (name ∷ []) s =
    bring_last os (get_last_job (after_pass os s).jobs.jobs_list) (after_pass os s)
      (pass_events os s)
execute_foreground os (name ∷ p ∷ ps) s =
    bring_by_id os (stoi_exact p) (not (is_nil ps)) (after_pass os s) (pass_events os s)

abbrev pub kill_invalid : Event
kill_invalid = complain (codes "smash error: kill: invalid arguments")

-- `kill` with a job: its signal is tested, then sent.
unfoldable pub send_signal : Os → Option ℤ → (more : Bool) → JobEntry → Shell → Outcome
send_signal os none more j s = returns s (kill_invalid ∷ [])
send_signal os (some signal) more j s =
    if leb_ℤ (pos 0) signal
    then returns s (kill_invalid ∷ [])
    else if more || ltb 31 (neg_part signal)
    then returns s (kill_invalid ∷ [])
    else if os.kill_succeeds j.job_pid (pos (neg_part signal))
    then returns s (
        sends j.job_pid (pos (neg_part signal))
        ∷ out (
            str (codes "signal number ")
            ∷ num (pos (neg_part signal))
            ∷ str (codes " was sent to pid ")
            ∷ num j.job_pid
            ∷ [])
        ∷ [])
    else returns s (complain (codes "smash error: kill failed") ∷ [])

unfoldable pub kill_job : Os → (signal id : Text) (more : Bool) → Option JobEntry → Shell → Outcome
kill_job os signal id more none s = returns s (
    err (str (codes "smash error: kill: job-id ") ∷ str id ∷ str (codes " does not exist") ∷ [])
    ∷ [])
kill_job os signal id more (some j) s = send_signal os (stoi_exact signal) more j s

unfoldable pub kill_by_id : Os → (signal id : Text) (more : Bool) → Option (ℤ × ℕ) → Shell → Outcome
kill_by_id os signal id more none s = returns s (kill_invalid ∷ [])
kill_by_id os signal id more (some (n, count)) s =
    kill_job os signal id more (get_job_by_id n s.jobs.jobs_list) s

-- `parametrs[2]` is read first. With one argument it is NULL, from which a `string` is refused by an
-- exception; with none it is not written.
unfoldable pub execute_kill : Os → List Text → Shell → Outcome
execute_kill os [] s = undefined []
execute_kill os (name ∷ []) s = undefined []
execute_kill os (name ∷ signal ∷ []) s = returns s (kill_invalid ∷ [])
execute_kill os (name ∷ signal ∷ id ∷ ps) s = kill_by_id os signal id (not (is_nil ps)) (stoi id) s

-- What the child of an external command starts: bash for a complex command.
unfoldable pub program :
    (cmd_line : Text) (ps : List Text) (is_complex : Bool) → Option (Text × List Text)
program cmd_line ps true = some (codes "/bin/bash", codes "/bin/bash" ∷ codes "-c" ∷ cmd_line ∷ [])
program cmd_line [] false = none
program cmd_line (p ∷ ps) false = some (p, p ∷ ps)

-- The end of the wait for a command in the foreground.
unfoldable pub after_foreground : Waited → Shell → List Event → Outcome
after_foreground wait_failed s es =
    returns s (es ++ complain (codes "smash error: waitpid failed") ∷ [])
after_foreground ended s es = returns s es
after_foreground stopped s es = returns s es

-- The parent behind a `fork` that gave it the process `son`.
unfoldable pub after_fork :
    Os → (son : ℤ) (cmd_line : Text) (is_background : Bool) → Shell → List Event → Outcome
after_fork os son cmd_line true s es =
    returns (record s { jobs = add_job (os.wait_nohang 0) cmd_line son s.jobs })
      (es ++ pass_events os s)
after_fork os son cmd_line false s es =
    after_foreground (os.wait_untraced son) (record s { foreground_command_pid = s.pid })
      (es ++ waits son ∷ [])

unfoldable pub start_program :
    Os → (cmd_line : Text) (is_background : Bool) → Option (Text × List Text) → Shell → Outcome
start_program os cmd_line is_background none s = undefined []
start_program os cmd_line is_background (some (path, argv)) s =
    after_fork os (os.fork 0) cmd_line is_background s (starts (os.fork 0) path argv ∷ [])

unfoldable pub execute_external :
    Os → (cmd_line : Text) (ps : List Text) (is_background is_complex : Bool) → Shell → Outcome
execute_external os cmd_line ps is_background is_complex s =
    if os.fork 0 ==ℤ negsuc 0
    then returns s (complain (codes "smash error: fork failed") ∷ [])
    else start_program os cmd_line is_background (program cmd_line ps is_complex) s

-- The process of one end of a pipe, if `fork` gave one, and the wait for it.
abbrev pub pipe_end : ℤ → Text → List Event
pipe_end son cmd_line =
    if son ==ℤ negsuc 0 then waits son ∷ [] else spawns son cmd_line ∷ waits son ∷ []

unfoldable pub execute_pipe : Os → (first second : Text) → Shell → Outcome
execute_pipe os first second s =
    returns s (pipe_end (os.fork 0) first ++ pipe_end (os.fork 1) second)

-- `chmod`, whose mode has as many digits as there are arguments.
unfoldable pub set_mode : Os → Option (ℤ × ℕ) → (file : Text) → Shell → Outcome
set_mode os none file s = returns s (complain (codes "smash error: chmod: invalid arguments") ∷ [])
set_mode os (some (n, count)) file s =
    if not (count == 3)
    then returns s (complain (codes "smash error: chmod: invalid arguments") ∷ [])
    else if os.chmod_succeeds file (mode_of n)
    then returns s (changes_mode file (mode_of n) ∷ [])
    else returns s (complain (codes "smash error: chmod failed") ∷ [])

unfoldable pub execute_chmod : Os → List Text → Shell → Outcome
execute_chmod os (name ∷ mode ∷ file ∷ []) s = set_mode os (stoi mode) file s
execute_chmod os ps s = returns s (complain (codes "smash error: chmod: invalid arguments") ∷ [])
