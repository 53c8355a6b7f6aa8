-- ===== src/Smash/Shell/Session.antt =====
-- Whole sessions of the shell of OS_HW1_234123.
use os.Prelude.{
  of_both, ℕ, zero, suc, refl, Bool, true, false, not, ◌||◌, Option, none, some, List, [], ◌∷◌,
}
use os.Prelude.Int.{ℤ, pos, negsuc, ltb_ℤ, ◌==ℤ◌}
use os.Smash.Types.{
  Text, JobEntry, max_jobs_num, Shell, Command, chprompt, show_pid, get_curr_dir, change_dir,
  jobs_command, foreground, quit, kill, chmod, external, redirection, pipe, Os, later, Event,
  Outcome, returns, undefined,
}
use os.Smash.Jobs.{get_job_by_id}
use os.Smash.Jobs.Order.{no_jobs-IsValid, add_job-IsValid}
use os.Smash.Line.{first_not_white, create_command}
use os.Smash.Commands
use os.Smash.Commands.Numbers.{stoi_exact}
use os.Smash.Shell.{
  around, around_inner, execute_redirection, execute, preceded, preceded_some, execute_created,
  execute_nonblank, execute_command, go_on, session,
}
use os.Smash.Shell.Sound
use os.Smash.Shell.Sound.{IsSound, Keeps, KeepsSome}

-- The shell with its job in front, and with itself there again.
bring-Keeps :
    (pid : ℤ) (os : Os) (id : ℤ) (j : JobEntry) (s : Shell) (es : List Event)
    → IsSound pid s
    → Keeps pid (Commands.bring os id j s es)
unfolding Commands.bring
bring-Keeps pid os id j s es is =
    Sound.after_wait-Keeps pid os (record s { foreground_command_pid = s.pid })
      (record { own = is.own; in_front = is.own; jobs_valid = is.jobs_valid })
      (os.wait_untraced j.job_pid) id _

bring_known-Keeps :
    (pid : ℤ) (os : Os) (id : ℤ) (more : Bool) (o : Option JobEntry) (s : Shell) (es : List Event)
    → IsSound pid s
    → Keeps pid (Commands.bring_known os id more o s es)
unfolding Commands.bring_known
bring_known-Keeps pid os id more none s es is = is
bring_known-Keeps pid os id more (some j) s es is =
    of_both (Keeps pid) more _ _ is (bring-Keeps pid os id j s es is)

bring_by_id-Keeps :
    (pid : ℤ) (os : Os) (o : Option ℤ) (more : Bool) (s : Shell) (es : List Event)
    → IsSound pid s
    → Keeps pid (Commands.bring_by_id os o more s es)
unfolding Commands.bring_by_id
bring_by_id-Keeps pid os none more s es is = is
bring_by_id-Keeps pid os (some id) more s es is =
    of_both (Keeps pid) (ltb_ℤ id (pos 1) || ltb_ℤ max_jobs_num id) _ _ is (
      of_both (Keeps pid) (ltb_ℤ s.jobs.max_index id) _ _ is
        (bring_known-Keeps pid os id more (get_job_by_id id s.jobs.jobs_list) s es is))

bring_last-Keeps :
    (pid : ℤ) (os : Os) (l : ℤ × Option JobEntry) (s : Shell) (es : List Event)
    → IsSound pid s
    → Keeps pid (Commands.bring_last os l s es)
unfolding Commands.bring_last
bring_last-Keeps pid os (id, none) s es is = is
bring_last-Keeps pid os (id, some j) s es is = bring-Keeps pid os id j s es is

foreground-Keeps :
    (pid : ℤ) (os : Os) (ps : List Text) (s : Shell)
    → IsSound pid s
    → Keeps pid (Commands.execute_foreground os ps s)
unfolding Commands.execute_foreground
foreground-Keeps pid os [] s is = tt
foreground-Keeps pid os (name ∷ []) s is =
    bring_last-Keeps pid os _ _ _ (Sound.after_pass-IsSound pid os s is)
foreground-Keeps pid os (name ∷ p ∷ ps) s is =
    bring_by_id-Keeps pid os (stoi_exact p) _ _ _ (Sound.after_pass-IsSound pid os s is)

after_fork-Keeps :
    (pid : ℤ) (os : Os) (son : ℤ) (cmd_line : Text) (is_background : Bool) (s : Shell)
    (es : List Event)
    → IsSound pid s
    → Keeps pid (Commands.after_fork os son cmd_line is_background s es)
unfolding Commands.after_fork
after_fork-Keeps pid os son cmd_line true s es is = record {
  own = is.own;
  in_front = is.in_front;
  jobs_valid = add_job-IsValid (os.wait_nohang 0) cmd_line son s.jobs is.jobs_valid;
}
after_fork-Keeps pid os son cmd_line false s es is =
    Sound.after_foreground-Keeps pid os (record s { foreground_command_pid = s.pid })
      (record { own = is.own; in_front = is.own; jobs_valid = is.jobs_valid })
      (os.wait_untraced son) _

start_program-Keeps :
    (pid : ℤ) (os : Os) (cmd_line : Text) (is_background : Bool) (o : Option (Text × List Text))
    (s : Shell)
    → IsSound pid s
    → Keeps pid (Commands.start_program os cmd_line is_background o s)
unfolding Commands.start_program
start_program-Keeps pid os cmd_line is_background none s is = tt
start_program-Keeps pid os cmd_line is_background (some (path, argv)) s is =
    after_fork-Keeps pid os (os.fork 0) cmd_line is_background s _ is

external-Keeps :
    (pid : ℤ) (os : Os) (cmd_line : Text) (ps : List Text) (is_background is_complex : Bool)
    (s : Shell)
    → IsSound pid s
    → Keeps pid (Commands.execute_external os cmd_line ps is_background is_complex s)
unfolding Commands.execute_external
external-Keeps pid os cmd_line ps is_background is_complex s is =
    of_both (Keeps pid) (os.fork 0 ==ℤ negsuc 0) _ _ is (
      start_program-Keeps pid os cmd_line is_background (Commands.program cmd_line ps is_complex) s
        is)

around_inner-Keeps :
    (pid : ℤ) (os : Os) (file : Text) (is_append : Bool) (o : Option Outcome)
    → KeepsSome pid o
    → KeepsSome pid (around_inner os file is_append o)
unfolding around_inner around
around_inner-Keeps pid os file is_append none h = tt
around_inner-Keeps pid os file is_append (some (returns t es)) h = h
around_inner-Keeps pid os file is_append (some (undefined es)) h = tt

redirection-Keeps :
    (pid : ℤ) (os : Os) (file : Text) (is_append : Bool) (inner : Option Outcome) (s : Shell)
    → IsSound pid s
    → KeepsSome pid inner
    → KeepsSome pid (execute_redirection os file is_append inner s)
unfolding execute_redirection
redirection-Keeps pid os file is_append inner s is h =
    of_both (KeepsSome pid) (not (os.opens file is_append)) _ _ is (
      of_both (KeepsSome pid) (not os.dup_succeeds) _ _ is (
        of_both (KeepsSome pid) (not os.redirects) _ _ is (
          of_both (KeepsSome pid) (not os.close_succeeds) _ _ is
            (around_inner-Keeps pid os file is_append inner h))))

execute-Keeps :
    (pid : ℤ) (line : Text → Shell → Option Outcome) (os : Os) (c : Command) (s : Shell)
    → ((t : Text) → KeepsSome pid (line t s))
    → IsSound pid s
    → KeepsSome pid (execute line os c s)
unfolding execute Commands.execute_show_pid Commands.execute_get_curr_dir Commands.execute_jobs
    Commands.execute_pipe
execute-Keeps pid line os (chprompt ps) s h is = Sound.chprompt-Keeps pid os s is ps
execute-Keeps pid line os (show_pid ps) s h is = is
execute-Keeps pid line os (get_curr_dir ps) s h is =
    Sound.directory-Keeps pid os s is _ (λ here. is)
execute-Keeps pid line os (change_dir ps) s h is = Sound.change_dir-Keeps pid os s is ps
execute-Keeps pid line os (jobs_command ps) s h is = Sound.after_pass-IsSound pid os s is
execute-Keeps pid line os (foreground ps) s h is = foreground-Keeps pid os ps s is
execute-Keeps pid line os (quit ps) s h is = Sound.quit-Keeps pid os s is ps
execute-Keeps pid line os (kill ps) s h is = Sound.kill-Keeps pid os s is ps
execute-Keeps pid line os (chmod ps) s h is = Sound.chmod-Keeps pid os s is ps
execute-Keeps pid line os (external cmd_line ps is_background is_complex) s h is =
    external-Keeps pid os cmd_line ps is_background is_complex s is
execute-Keeps pid line os (redirection cmd_line file is_append) s h is =
    redirection-Keeps pid os file is_append (line cmd_line s) s is (h cmd_line)
execute-Keeps pid line os (pipe first second with_ampersand) s h is = is

preceded-Keeps :
    (pid : ℤ) (before : List Event) (o : Option Outcome)
    → KeepsSome pid o
    → KeepsSome pid (preceded_some before o)
unfolding preceded
preceded-Keeps pid before none h = tt
preceded-Keeps pid before (some (returns t es)) h = h
preceded-Keeps pid before (some (undefined es)) h = tt

created-Keeps :
    (pid : ℤ) (line : Text → Shell → Option Outcome) (os : Os) (o : Option Command) (s : Shell)
    → ((t : Text) → KeepsSome pid (line t s))
    → IsSound pid s
    → KeepsSome pid (execute_created line os o s)
created-Keeps pid line os none s h is = tt
created-Keeps pid line os (some c) s h is = execute-Keeps pid line os c s h is

nonblank-Keeps :
    (pid : ℤ) (line : Text → Shell → Option Outcome) (os : Os) (cmd_line : Text) (o : Option ℕ)
    → (s : Shell) → ((t : Text) → KeepsSome pid (line t (Commands.after_pass os s)))
    → IsSound pid s
    → KeepsSome pid (execute_nonblank line os cmd_line o s)
unfolding execute_nonblank
nonblank-Keeps pid line os cmd_line none s h is = is
nonblank-Keeps pid line os cmd_line (some i) s h is =
    preceded-Keeps pid (Commands.pass_events os s) _ (
      created-Keeps pid line (later os) (create_command cmd_line) (Commands.after_pass os s) h
        (Sound.after_pass-IsSound pid os s is))

pub execute_command-Keeps :
    (pid : ℤ) (fuel : ℕ) (os : Os) (cmd_line : Text) (s : Shell)
    → IsSound pid s
    → KeepsSome pid (execute_command fuel os cmd_line s)
unfolding execute_command
execute_command-Keeps pid zero os cmd_line s is = tt
execute_command-Keeps pid (suc fuel) os cmd_line s is =
    nonblank-Keeps pid (execute_command fuel (later os)) os cmd_line (first_not_white cmd_line) s
      (λ t.
        execute_command-Keeps pid fuel (later os) t (Commands.after_pass os s)
          (Sound.after_pass-IsSound pid os s is))
      is

go_on-Keeps :
    (pid : ℤ) (before : List Event) (rest : Shell → Option Outcome) (o : Option Outcome)
    → ((t : Shell) → IsSound pid t → KeepsSome pid (rest t))
    → KeepsSome pid o
    → KeepsSome pid (go_on before rest o)
unfolding go_on
go_on-Keeps pid before rest none h is = tt
go_on-Keeps pid before rest (some (undefined es)) h is = tt
go_on-Keeps pid before rest (some (returns t es)) h is = preceded-Keeps pid _ _ (h t is)

session_from-Keeps :
    (pid : ℤ) (fuel : ℕ) (lines : List (Os × Text)) (s : Shell)
    → IsSound pid s
    → KeepsSome pid (session fuel lines s)
unfolding session
session_from-Keeps pid fuel [] s is = is
session_from-Keeps pid fuel ((os, line) ∷ lines) s is =
    go_on-Keeps pid _ (session fuel lines) _ (session_from-Keeps pid fuel lines)
      (execute_command-Keeps pid fuel os line s is)

-- After any lines, whatever the system calls return, a shell that has not exited is itself in the
-- foreground, and the ids of its jobs ascend, stay below `max_index`, and are those of at most
-- MAX_JOBS_NUM jobs.
pub session-Keeps :
    (pid : ℤ) (fuel : ℕ) (lines : List (Os × Text))
    → KeepsSome pid (session fuel lines (Commands.new_shell pid))
unfolding Commands.new_shell
session-Keeps pid fuel lines =
    session_from-Keeps pid fuel lines _
      (record { own = refl; in_front = refl; jobs_valid = no_jobs-IsValid })
