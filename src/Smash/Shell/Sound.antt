-- ===== src/Smash/Shell/Sound.antt =====
-- The shell between two lines, and each command of OS_HW1_234123/Commands.cpp.
use os.Prelude.{of_both, ℕ, ◌≡◌, Bool, not, ◌||◌, Option, none, some, List, [], ◌∷◌, ltb, ◌==◌}
use os.Prelude.Int.{ℤ, pos, neg_part, leb_ℤ}
use os.Text.{codes, str_eq}
use os.Smash.Types.{
  Text, JobEntry, Shell, Waited, wait_failed, ended, stopped, Os, Event, Outcome, returns,
  undefined,
}
use os.Smash.Jobs.{get_job_by_id}
use os.Smash.Jobs.Order.{IsValid, remove_finished_jobs-IsValid, remove_job_by_id-IsValid}
use os.Smash.Commands
use os.Smash.Commands.Numbers.{stoi, stoi_exact, mode_of}

-- The shell `pid` is in the foreground, and its jobs are in order.
pub record IsSound (pid : ℤ) (s : Shell) : Type 0 where
  pub own : s.pid ≡ pid
  pub in_front : s.foreground_command_pid ≡ pid
  pub jobs_valid : IsValid s.jobs

abbrev pub Keeps : (pid : ℤ) → Outcome → Type 0
Keeps pid (returns t es) = IsSound pid t
Keeps pid (undefined es) = Unit

abbrev pub KeepsSome : (pid : ℤ) → Option Outcome → Type 0
KeepsSome pid none = Unit
KeepsSome pid (some o) = Keeps pid o

module _ (pid : ℤ) (os : Os) (s : Shell) (is : IsSound pid s) where
  pub after_pass-IsSound : IsSound pid (Commands.after_pass os s)
  after_pass-IsSound = record {
    own = is.own;
    in_front = is.in_front;
    jobs_valid = remove_finished_jobs-IsValid (os.wait_nohang 0) s.jobs is.jobs_valid;
  }

  pub chprompt-Keeps : (ps : List Text) → Keeps pid (Commands.execute_chprompt ps s)
  unfolding Commands.execute_chprompt
  chprompt-Keeps [] = tt
  chprompt-Keeps (name ∷ []) = record {
    own = is.own;
    in_front = is.in_front;
    jobs_valid = is.jobs_valid;
  }
  chprompt-Keeps (name ∷ p ∷ ps) = record {
    own = is.own;
    in_front = is.in_front;
    jobs_valid = is.jobs_valid;
  }

  with_directory-Keeps :
      (o : Option Text) (rest : Text → Outcome)
      → ((here : Text) → Keeps pid (rest here))
      → Keeps pid (Commands.with_directory o rest s)
  with_directory-Keeps none rest h = is
  with_directory-Keeps (some here) rest h = h here

  pub directory-Keeps :
      (rest : Text → Outcome)
      → ((here : Text) → Keeps pid (rest here))
      → Keeps pid (Commands.directory os rest s)
  directory-Keeps rest h =
      of_both (Keeps pid) os.malloc_succeeds _ _ (with_directory-Keeps os.getcwd rest h) is

  enter-Keeps : (path here : Text) → Keeps pid (Commands.enter os path here s)
  unfolding Commands.enter
  enter-Keeps path here =
      of_both (Keeps pid) (os.chdir_succeeds path) _ _
        (record { own = is.own; in_front = is.in_front; jobs_valid = is.jobs_valid }) is

  change_to-Keeps : (path : Text) → Keeps pid (Commands.change_to os path s)
  unfolding Commands.change_to
  change_to-Keeps path =
      with_directory-Keeps os.getcwd _ (λ first. directory-Keeps _ (enter-Keeps path))

  pub change_dir-Keeps : (ps : List Text) → Keeps pid (Commands.execute_change_dir os ps s)
  unfolding Commands.execute_change_dir
  change_dir-Keeps [] = tt
  change_dir-Keeps (name ∷ []) = is
  change_dir-Keeps (name ∷ dir ∷ []) =
      of_both (Keeps pid) (str_eq dir (codes "-")) _ _
        (of_both (Keeps pid) (str_eq s.last_working_directory Commands.no_directory) _ _ is
          (change_to-Keeps s.last_working_directory))
        (change_to-Keeps dir)
  change_dir-Keeps (name ∷ dir ∷ more ∷ ps) = is

  pub after_wait-Keeps :
      (w : Waited) (id : ℤ) (es : List Event) → Keeps pid (Commands.after_wait w id s es)
  unfolding Commands.after_wait
  after_wait-Keeps wait_failed id es = is
  after_wait-Keeps ended id es = record {
    own = is.own;
    in_front = is.in_front;
    jobs_valid = remove_job_by_id-IsValid id s.jobs is.jobs_valid;
  }
  after_wait-Keeps stopped id es = is

  pub kill-Keeps : (ps : List Text) → Keeps pid (Commands.execute_kill os ps s)
  unfolding Commands.execute_kill
  kill-Keeps [] = tt
  kill-Keeps (name ∷ []) = tt
  kill-Keeps (name ∷ signal ∷ []) = is
  kill-Keeps (name ∷ signal ∷ id ∷ ps) = by_id (stoi id)
    where
      more : Bool
      more = not (Commands.is_nil ps)

      by_signal : (o : Option ℤ) (j : JobEntry) → Keeps pid (Commands.send_signal os o more j s)
      by_signal none j = unfold Commands.send_signal in is
      by_signal (some n) j =
          unfold Commands.send_signal in
          of_both (Keeps pid) (leb_ℤ (pos 0) n) _ _ is (
            of_both (Keeps pid) (more || ltb 31 (neg_part n)) _ _ is
              (of_both (Keeps pid) (os.kill_succeeds j.job_pid (pos (neg_part n))) _ _ is is))

      by_job : (o : Option JobEntry) → Keeps pid (Commands.kill_job os signal id more o s)
      by_job none = unfold Commands.kill_job in is
      by_job (some j) = unfold Commands.kill_job in by_signal (stoi_exact signal) j

      by_id : (o : Option (ℤ × ℕ)) → Keeps pid (Commands.kill_by_id os signal id more o s)
      by_id none = unfold Commands.kill_by_id in is
      by_id (some (n, count)) =
          unfold Commands.kill_by_id in by_job (get_job_by_id n s.jobs.jobs_list)

  pub chmod-Keeps : (ps : List Text) → Keeps pid (Commands.execute_chmod os ps s)
  unfolding Commands.execute_chmod
  chmod-Keeps [] = is
  chmod-Keeps (name ∷ []) = is
  chmod-Keeps (name ∷ mode ∷ []) = is
  chmod-Keeps (name ∷ mode ∷ file ∷ more ∷ ps) = is
  chmod-Keeps (name ∷ mode ∷ file ∷ []) = by_mode (stoi mode)
    where
      by_mode : (o : Option (ℤ × ℕ)) → Keeps pid (Commands.set_mode os o file s)
      by_mode none = unfold Commands.set_mode in is
      by_mode (some (n, count)) =
          unfold Commands.set_mode in
          of_both (Keeps pid) (not (count == 3)) _ _ is
            (of_both (Keeps pid) (os.chmod_succeeds file (mode_of n)) _ _ is is)

  pub quit-Keeps : (ps : List Text) → Keeps pid (Commands.execute_quit os ps s)
  unfolding Commands.execute_quit
  quit-Keeps ps = of_both (Keeps pid) (Commands.is_kill ps) _ _ tt tt

  pub after_foreground-Keeps :
      (w : Waited) (es : List Event) → Keeps pid (Commands.after_foreground w s es)
  unfolding Commands.after_foreground
  after_foreground-Keeps wait_failed es = is
  after_foreground-Keeps ended es = is
  after_foreground-Keeps stopped es = is
