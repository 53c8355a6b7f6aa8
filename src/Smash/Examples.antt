-- ===== src/Smash/Examples.antt =====
-- Lines and sessions of the shell that run, and the theorems on OS_HW1_234123 applied to them.
use os.Prelude.{ℕ, zero, suc, if◌then◌else◌, ◌≡◌, refl, true, some, List, [], ◌∷◌, ◌++◌, arith}
use os.Prelude.Int.{ℤ, ◌==ℤ◌, pos, ◌+ℤ◌, ◌-ℤ◌}
use os.Text.{codes}
use os.Smash.Types.{
  JobEntry, Shell, redirection, pipe, ended, Os, str, num, out, sends, starts, waits, changes_dir,
  Outcome, returns, undefined,
}
use os.Smash.Line.{create_command}
use os.Smash.Line.Dispatch.{create_command-redirection, create_command-pipe}
use os.Smash.Line.Classes.{AllOf, IsNotChmod, create_command-IsNotChmod}
use os.Smash.Jobs.{Change, change, finishes, adds, removes, no_jobs, changes}
use os.Smash.Jobs.Order.{IsValid, changes-IsValid}
use os.Smash.Commands.{
  new_shell, after_pass, pass_events, execute_change_dir, execute_external, execute_foreground,
  execute_kill, execute_quit,
}
use os.Smash.Commands.Numbers.{mode_of, mode_loop, stoi, stoi_exact}
use os.Smash.Shell.{execute_command, session}
use os.Smash.Line.{
  choose_known, is_background_command, choose, trim, rtrim, ltrim, parameters, parse_command_line,
  erase_ampersands,
}
use os.Smash.Jobs.{
  add_job, add_entry, remove_finished_jobs, remove_finished_events, sweep, recount, max_id,
  kill_all_jobs,
}
use os.Smash.Commands.{start_program, program, after_fork}
use os.Smash.Commands.Numbers.{stoi_from, stoi_sign, stoi_digits, digits_count, digits_value}
use os.Smash.Shell.{go_on, execute_nonblank, execute, preceded}
use os.Smash.Shell.Sound.{Keeps}
use os.Smash.Shell.Fuel.{session-outcome}
use os.Smash.Shell.Effects.{Enters, Changes, change_dir_back, change_dir_cases}
use os.Smash.Shell.Signals.{OnlySends, execute_kill-OnlySends, foreground_ended}

-- All calls succeed; no process has ended, and every one that is waited for ends.
abbrev calm : Os
calm = record {
  wait_nohang = λ k pid. pos 0;
  wait_untraced = λ pid. ended;
  kill_succeeds = λ pid signal. true;
  fork = λ k. pos 700;
  malloc_succeeds = true;
  getcwd = some (codes "/home");
  chdir_succeeds = λ path. true;
  chmod_succeeds = λ file mode. true;
  opens = λ file appends. true;
  dup_succeeds = true;
  redirects = true;
  close_succeeds = true;
  restores = true;
}

abbrev first_job : JobEntry
first_job = record {
  cmd = codes "sleep 9&";
  job_pid = pos 700;
  job_id = pos 1;
  index_in_list = pos 0;
}

abbrev far_job : JobEntry
far_job = record {
  cmd = codes "sleep 8&";
  job_pid = pos 800;
  job_id = pos 101;
  index_in_list = pos 1;
}

-- A shell with a job of the id 1 and one of the id 101.
abbrev busy : Shell
busy = record {
  pid = pos 5;
  prompt = codes "smash> ";
  last_working_directory = codes "/tmp";
  foreground_command_pid = pos 5;
  jobs = record { jobs_list = first_job ∷ far_job ∷ []; max_index = pos 102; cur_size = pos 2 };
}

busy-IsValid : IsValid busy.jobs
busy-IsValid = record {
  ids = (omega arith, (omega arith, omega arith));
  counted = omega arith;
  capped = omega arith;
}

-- A background command becomes a job, and `quit kill` ends it.
background_killed :
    session 2 ((calm, codes "sleep 9&") ∷ (calm, codes "quit kill") ∷ []) (new_shell (pos 5))
    ≡ some (
        undefined (
          out (str (codes "smash> ") ∷ [])
          ∷ starts (pos 700) (codes "sleep") (codes "sleep" ∷ codes "9" ∷ [])
          ∷ out (str (codes "smash> ") ∷ [])
          ∷ out (
              str (codes "smash: sending SIGKILL signal to ")
              ∷ num (pos 1)
              ∷ str (codes " jobs:")
              ∷ [])
          ∷ out (num (pos 700) ∷ str (codes ": ") ∷ str (codes "sleep 9&") ∷ [])
          ∷ sends (pos 700) (pos 9)
          ∷ []))
unfolding go_on execute_nonblank execute preceded execute_command session choose_known
    is_background_command choose trim rtrim ltrim parameters parse_command_line erase_ampersands
    create_command new_shell start_program program after_fork execute_external execute_quit add_job
    add_entry remove_finished_jobs remove_finished_events sweep recount max_id kill_all_jobs ◌+ℤ◌
    ◌-ℤ◌
background_killed = refl

-- The octal mode 755 is not read as 493.
mode_755 : mode_of (pos 755) ≡ pos 613
unfolding mode_of mode_loop
mode_755 = refl

create_command-redirection_example :
    create_command (codes "ls >> f") ≡ some (redirection (codes "ls") (codes "f") true)
create_command-redirection_example =
    create_command-redirection (codes "ls") (codes "f") true (refl, refl) (refl, (refl, tt))
      (refl, refl)

create_command-pipe_example :
    create_command (codes "ls |& wc") ≡ some (pipe (codes "ls") (codes "wc") true)
create_command-pipe_example =
    create_command-pipe (codes "ls") (codes "wc") true (refl, refl) (refl, (refl, tt))
      (refl, (refl, tt)) (refl, refl) (refl, (refl, tt))

create_command-IsNotChmod_example : AllOf IsNotChmod (create_command (codes "chmod 755 f"))
create_command-IsNotChmod_example = create_command-IsNotChmod (codes "chmod 755 f")

changes-IsValid_example : IsValid (
    changes no_jobs (
      adds (λ pid. pos 0) (codes "a") (pos 7)
      ∷ adds (λ pid. pos 0) (codes "b") (pos 8)
      ∷ removes (pos 1)
      ∷ finishes (λ pid. pos 8)
      ∷ []))
changes-IsValid_example = changes-IsValid _

session-outcome_example :
    (r : Outcome) × (session 2
        ((calm, codes "ls > f") ∷ (calm, codes "fg") ∷ [])
        (new_shell (pos 5))
      ≡ some r)
    × Keeps (pos 5) r
session-outcome_example =
    session-outcome (pos 5) 0 ((calm, codes "ls > f") ∷ (calm, codes "fg") ∷ [])

Enters-etc : Enters calm (codes "/home") (codes "/etc")
Enters-etc = record { allocated = refl; told = refl; entered = refl }

Enters-home : Enters (record calm { getcwd = some (codes "/etc") }) (codes "/etc") (codes "/home")
Enters-home = record { allocated = refl; told = refl; entered = refl }

change_dir_back_example :
    (t : Shell) × (execute_change_dir calm (codes "cd" ∷ codes "/etc" ∷ []) busy
      ≡ returns t (changes_dir (codes "/etc") ∷ []))
    × (execute_change_dir
          (record calm { getcwd = some (codes "/etc") })
          (codes "cd" ∷ codes "-" ∷ [])
          t
        ≡ returns
            (record busy { last_working_directory = codes "/etc" })
            (changes_dir (codes "/home") ∷ []))
change_dir_back_example =
    change_dir_back calm (record calm { getcwd = some (codes "/etc") }) (codes "cd") (codes "cd")
      (codes "/etc") (codes "/home") (codes "/etc") busy refl refl Enters-etc Enters-home

change_dir_cases_example :
    Changes calm (codes "-" ∷ []) busy (execute_change_dir calm (codes "cd" ∷ codes "-" ∷ []) busy)
change_dir_cases_example = change_dir_cases calm (codes "cd") (codes "-" ∷ []) busy

passed_busy : (after_pass calm busy).jobs.jobs_list ≡ first_job ∷ far_job ∷ []
unfolding remove_finished_jobs sweep recount
passed_busy = refl

execute_kill-OnlySends_example :
    OnlySends busy (execute_kill calm (codes "kill" ∷ codes "-9" ∷ codes "101" ∷ []) busy)
execute_kill-OnlySends_example =
    execute_kill-OnlySends calm (codes "kill" ∷ codes "-9" ∷ codes "101" ∷ []) busy

reads_1 : stoi_exact (codes "1") ≡ some (pos 1)
unfolding stoi_exact stoi stoi_from stoi_sign stoi_digits digits_count digits_value
reads_1 = refl

reads_101 : stoi_exact (codes "101") ≡ some (pos 101)
unfolding stoi_exact stoi stoi_from stoi_sign stoi_digits digits_count digits_value
reads_101 = refl

foreground_ended_example :
    (t : Shell) × (execute_foreground calm (codes "fg" ∷ codes "1" ∷ []) busy
      ≡ returns t (
          pass_events calm busy
          ++ (out (str (codes "sleep 9&") ∷ str (codes " ") ∷ num (pos 700) ∷ [])
              ∷ waits (pos 700)
              ∷ [])))
    × (t.jobs.jobs_list ≡ far_job ∷ [])
foreground_ended_example =
    foreground_ended calm busy [] (far_job ∷ []) first_job busy-IsValid passed_busy (codes "fg")
      (codes "1") reads_1 (omega arith) refl

-- As many jobs as there is room for.
abbrev many : ℕ → List Change
many zero = []
many (suc n) = adds (λ pid. pos 0) (codes "a") (pos 700) ∷ many n

abbrev ids : List JobEntry → List ℤ
ids [] = []
ids (j ∷ js) = j.job_id ∷ ids js

-- Behind them one more job, and one that is added when all but this one have ended.
abbrev hundred_and_one : List Change
hundred_and_one =
    many 99
    ++ adds (λ pid. pos 0) (codes "b") (pos 800)
      ∷ adds (λ pid. if pid ==ℤ pos 700 then pid else pos 0) (codes "c") (pos 900)
      ∷ []

-- Of a hundred jobs the one with the greatest id is not the first to end: with two jobs, one has the
-- id 101.
id_101 : ids (changes no_jobs hundred_and_one).jobs_list ≡ pos 100 ∷ pos 101 ∷ []
unfolding changes change add_job add_entry remove_finished_jobs sweep recount max_id ◌+ℤ◌ ◌-ℤ◌
id_101 = refl
