-- ===== src/Smash/Shell/Signals.antt =====
-- The signals that commands of OS_HW1_234123/Commands.cpp send, and the jobs that `fg` takes.
use os.Prelude.{
  subst, ℕ, ◌≡◌, refl, sym, ap, ◌∙◌, ◌⊎◌, inl, inr, Bool, true, false, not, ◌||◌, Option, none,
  some, List, [], ◌∷◌, ◌++◌, map, arith, Bool-cases, of_both, ltb,
}
use mathlib.Core.Option.{some-injective}
use os.Prelude.Int.{ℤ, pos, neg_part, ltb_ℤ, leb_ℤ, ◌≤ℤ◌, ◌<ℤ◌, ◌==ℤ◌}
use os.Text.{codes}
use os.Smash.Types.{
  Text, JobEntry, max_jobs_num, Shell, Os, ended, str, num, Event, out, err, sends, starts, spawns,
  waits, changes_dir, changes_mode, redirects_to, restores_stdout, Outcome, returns, undefined,
}
use os.Smash.Jobs.{get_job_by_id, kill_all_jobs, erased, remove_job_by_id}
use os.Smash.Jobs.Order.{Ascending, Ascending-lt, IsValid, remove_finished_jobs-IsValid}
use os.Smash.Jobs.Upkeep.{get_job_by_id_lem, erase_job_lem}
use os.Smash.Commands.{
  is_nil, send_signal, kill_job, kill_by_id, execute_kill, execute_quit, after_pass, pass_events,
  after_wait, bring, bring_known, bring_by_id, no_such_job, execute_foreground,
}
use os.Smash.Commands.Numbers.{stoi, stoi_exact}

-- A job of the list has the process.
abbrev pub HasPid : List JobEntry → ℤ → Type 0
HasPid [] pid = ⊥
HasPid (j ∷ js) pid = (j.job_pid ≡ pid) ⊎ HasPid js pid

-- A signal of the range 1 to 31 to the process of a job.
abbrev pub IsAllowed : List JobEntry → Event → Type 0
IsAllowed js (sends pid signal) = HasPid js pid × (pos 1 ≤ℤ signal) × (signal ≤ℤ pos 31)
IsAllowed js (out items) = Unit
IsAllowed js (err items) = Unit
IsAllowed js (starts pid path argv) = Unit
IsAllowed js (spawns pid cmd_line) = Unit
IsAllowed js (waits pid) = Unit
IsAllowed js (changes_dir path) = Unit
IsAllowed js (changes_mode file mode) = Unit
IsAllowed js (redirects_to file appends) = Unit
IsAllowed js restores_stdout = Unit

abbrev pub AllAllowed : List JobEntry → List Event → Type 0
AllAllowed js [] = Unit
AllAllowed js (e ∷ es) = IsAllowed js e × AllAllowed js es

-- The shell stays as it is, and its signals are allowed.
abbrev pub OnlySends : Shell → Outcome → Type 0
OnlySends s (returns t es) = (t ≡ s) × AllAllowed s.jobs.jobs_list es
OnlySends s (undefined es) = AllAllowed s.jobs.jobs_list es

found-HasPid :
    (id : ℤ) (js : List JobEntry) (j : JobEntry)
    → get_job_by_id id js ≡ some j
    → HasPid js j.job_pid
unfolding get_job_by_id
found-HasPid id [] j h = ground arith
found-HasPid id (k ∷ js) j h = elim (Bool-cases (k.job_id ==ℤ id)) [
  | inl found ↦
      let e : get_job_by_id id (k ∷ js) ≡ some k = rw (found, get_job_by_id) in
      inl (ap (λ o. o.job_pid) (some-injective k j (sym e ∙ h)))
  | inr other ↦
      let e : get_job_by_id id (k ∷ js) ≡ get_job_by_id id js = rw (other, get_job_by_id) in
      inr (found-HasPid id js j (sym e ∙ h))
]

send_signal-OnlySends :
    (os : Os) (o : Option ℤ) (more : Bool) (j : JobEntry) (s : Shell)
    → HasPid s.jobs.jobs_list j.job_pid
    → OnlySends s (send_signal os o more j s)
unfolding send_signal
send_signal-OnlySends os none more j s has = (refl, (tt, tt))
send_signal-OnlySends os (some signal) more j s has = elim (Bool-cases (leb_ℤ (pos 0) signal)) [
  | inl positive ↦ rw positive (refl, (tt, tt))
  | inr negative ↦ rw negative (elim (Bool-cases (more || ltb 31 (neg_part signal))) [
    | inl refused ↦ rw refused (refl, (tt, tt))
    | inr small ↦ rw small (
        of_both (OnlySends s) (os.kill_succeeds j.job_pid (pos (neg_part signal))) _ _
          (refl, ((has, negated signal negative, bounded more signal small), (tt, tt)))
          (refl, (tt, tt)))
  ])
]
  where
    negated : (n : ℤ) → leb_ℤ (pos 0) n ≡ false → pos 1 ≤ℤ pos (neg_part n)
    negated n h = ground arith

    bounded : (b : Bool) (n : ℤ) → (b || ltb 31 (neg_part n)) ≡ false → pos (neg_part n) ≤ℤ pos 31
    bounded b n h = ground arith

kill_job-OnlySends :
    (os : Os) (signal id : Text) (more : Bool) (n : ℤ) (o : Option JobEntry) (s : Shell)
    → get_job_by_id n s.jobs.jobs_list ≡ o
    → OnlySends s (kill_job os signal id more o s)
unfolding kill_job
kill_job-OnlySends os signal id more n none s found = (refl, (tt, tt))
kill_job-OnlySends os signal id more n (some j) s found =
    send_signal-OnlySends os (stoi_exact signal) more j s (found-HasPid n s.jobs.jobs_list j found)

kill_by_id-OnlySends :
    (os : Os) (signal id : Text) (more : Bool) (o : Option (ℤ × ℕ)) (s : Shell)
    → OnlySends s (kill_by_id os signal id more o s)
unfolding kill_by_id
kill_by_id-OnlySends os signal id more none s = (refl, (tt, tt))
kill_by_id-OnlySends os signal id more (some (n, count)) s =
    kill_job-OnlySends os signal id more n (get_job_by_id n s.jobs.jobs_list) s refl

-- `kill` with any arguments, unless it reads one that is not there, leaves the shell as it is, and each
-- signal that it sends is one of 1 to 31, to the process of a job of the list.
pub execute_kill-OnlySends :
    (os : Os) (ps : List Text) (s : Shell) → OnlySends s (execute_kill os ps s)
unfolding execute_kill
execute_kill-OnlySends os [] s = tt
execute_kill-OnlySends os (name ∷ []) s = tt
execute_kill-OnlySends os (name ∷ signal ∷ []) s = (refl, (tt, tt))
execute_kill-OnlySends os (name ∷ signal ∷ id ∷ ps) s =
    kill_by_id-OnlySends os signal id (not (is_nil ps)) (stoi id) s

-- The processes that are sent a signal, with the signal, in the order of the events.
abbrev pub sent : List Event → List (ℤ × ℤ)
sent [] = []
sent (sends pid signal ∷ es) = (pid, signal) ∷ sent es
sent (out items ∷ es) = sent es
sent (err items ∷ es) = sent es
sent (starts pid path argv ∷ es) = sent es
sent (spawns pid cmd_line ∷ es) = sent es
sent (waits pid ∷ es) = sent es
sent (changes_dir path ∷ es) = sent es
sent (changes_mode file mode ∷ es) = sent es
sent (redirects_to file appends ∷ es) = sent es
sent (restores_stdout ∷ es) = sent es

kill_all_jobs-sent :
    (kill_succeeds : ℤ → ℤ → Bool) (js : List JobEntry)
    → ((pid : ℤ) → kill_succeeds pid (pos 9) ≡ true)
    → sent (kill_all_jobs kill_succeeds js).0 ≡ map (λ j. (j.job_pid, pos 9)) js
unfolding kill_all_jobs
kill_all_jobs-sent kill_succeeds [] h = refl
kill_all_jobs-sent kill_succeeds (j ∷ js) h =
    rw (h j.job_pid) (ap (λ r. (j.job_pid, pos 9) ∷ r) (kill_all_jobs-sent kill_succeeds js h))

-- `quit kill`, where `kill` fails for no process, sends SIGKILL to each job of the list once, in the
-- order of the list, before it uses memory outside an array.
pub quit_kills_all :
    (os : Os) (name : Text) (ps : List Text) (s : Shell)
    → ((pid : ℤ) → os.kill_succeeds pid (pos 9) ≡ true)
    → (es : List Event) × (execute_quit os (name ∷ codes "kill" ∷ ps) s ≡ undefined es)
      × (sent es ≡ map (λ j. (j.job_pid, pos 9)) s.jobs.jobs_list)
unfolding execute_quit
quit_kills_all os name ps s h = (_, refl, kill_all_jobs-sent os.kill_succeeds s.jobs.jobs_list h)

not_less : (a b : ℤ) → b ≤ℤ a → ltb_ℤ a b ≡ false
not_less a b h = ground arith

between :
    (lo hi : ℤ) (js ks : List JobEntry) (j : JobEntry)
    → Ascending lo (js ++ j ∷ ks) hi
    → (lo <ℤ j.job_id) × (j.job_id <ℤ hi)
between lo hi [] ks j h = (h.0, Ascending-lt j.job_id hi ks h.1)
between lo hi (k ∷ js) ks j h =
    let rest = between k.job_id hi js ks j h.1 in (omega (arith, h.0, rest.0), rest.1)

module _ (os : Os) (s : Shell) (js ks : List JobEntry) (j : JobEntry) (valid : IsValid s.jobs)
    (listed : (after_pass os s).jobs.jobs_list ≡ js ++ j ∷ ks) where
  passed : Ascending (pos 0) (js ++ j ∷ ks) (after_pass os s).jobs.max_index
  passed =
      subst (λ l. Ascending (pos 0) l (after_pass os s).jobs.max_index) listed
        (remove_finished_jobs-IsValid (os.wait_nohang 0) s.jobs valid).ids

  listed_found : get_job_by_id j.job_id (after_pass os s).jobs.jobs_list ≡ some j
  listed_found = rw listed (get_job_by_id_lem (pos 0) _ js ks j passed)

  in_range :
      (ltb_ℤ j.job_id (pos 1) ≡ false) × (ltb_ℤ (after_pass os s).jobs.max_index j.job_id ≡ false)
  in_range =
      let bounds = between (pos 0) (after_pass os s).jobs.max_index js ks j passed in
      (
        not_less j.job_id (pos 1) (omega (arith, bounds.0)),
        not_less (after_pass os s).jobs.max_index j.job_id (omega (arith, bounds.1)),
      )

  removed : (remove_job_by_id j.job_id (after_pass os s).jobs).jobs_list ≡ js ++ ks
  unfolding remove_job_by_id erased
  removed = rw (listed, erase_job_lem (pos 0) _ js ks j passed)

  -- `fg` with the id of a job of the list, at most MAX_JOBS_NUM, that then ends: its process is
  -- waited for, and the job is the only one that leaves the list.
  pub foreground_ended :
      (name p : Text)
      → stoi_exact p ≡ some j.job_id
      → j.job_id ≤ℤ max_jobs_num
      → os.wait_untraced j.job_pid ≡ ended
      → (t : Shell) × (execute_foreground os (name ∷ p ∷ []) s
          ≡ returns t (
              pass_events os s
              ++ (out (str j.cmd ∷ str (codes " ") ∷ num j.job_pid ∷ []) ∷ waits j.job_pid ∷ [])))
        × (t.jobs.jobs_list ≡ js ++ ks)
  unfolding execute_foreground bring_by_id bring_known bring after_wait
  foreground_ended name p number within ends =
      let small : ltb_ℤ max_jobs_num j.job_id ≡ false = not_less max_jobs_num j.job_id within in
      (
        record (after_pass os s) {
          foreground_command_pid = s.pid;
          jobs = remove_job_by_id j.job_id (after_pass os s).jobs;
        },
        rw
            (
              number, small, in_range.0, in_range.1, listed_found, ends, execute_foreground,
              bring_by_id, bring_known, bring, after_wait,
            )
            refl,
        removed,
      )

  -- `fg` with the id of a job of the list that is greater than MAX_JOBS_NUM says that there is no such
  -- job, though `getJobById` finds it.
  pub foreground_beyond :
      (name p : Text) (ps : List Text)
      → stoi_exact p ≡ some j.job_id
      → max_jobs_num <ℤ j.job_id
      → (get_job_by_id j.job_id (after_pass os s).jobs.jobs_list ≡ some j)
        × (execute_foreground os (name ∷ p ∷ ps) s
            ≡ returns (after_pass os s) (pass_events os s ++ no_such_job j.job_id ∷ []))
  unfolding execute_foreground bring_by_id
  foreground_beyond name p ps number beyond =
      let big : ltb_ℤ max_jobs_num j.job_id ≡ true = ground (arith, beyond) in
      (listed_found, rw (number, big, in_range.0, execute_foreground, bring_by_id))
