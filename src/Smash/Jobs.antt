-- ===== src/Smash/Jobs.antt =====
-- `JobsList` of OS_HW1_234123/Commands.cpp.
pub mod Order
pub mod Upkeep
use os.Prelude.{
  ℕ, zero, suc, Bool, true, false, Option, none, some, List, [], ◌∷◌, ◌++◌, length, if◌then◌else◌,
}
use os.Prelude.Int.{ℤ, pos, negsuc, ◌+ℤ◌, ◌-ℤ◌, ltb_ℤ, leb_ℤ, ◌==ℤ◌}
use os.Text.{codes}
use os.Smash.Types.{
  Text, JobEntry, JobsList, max_jobs_num, Os, Event, out, sends, str, num, complain,
}

abbrev pub keep : JobEntry → List JobEntry × Bool → List JobEntry × Bool
keep j (js, failed) = (j ∷ js, failed)

-- The first loop of `removeFinishedJobs`: the jobs that stay, and whether `waitpid` failed. `wait`
-- is what it returns for a process.
unfoldable pub sweep : (wait : ℤ → ℤ) → List JobEntry → List JobEntry × Bool
sweep wait [] = ([], false)
sweep wait (j ∷ js) =
    let rest = sweep wait js in
    if ltb_ℤ (pos 0) (wait j.job_pid)
    then rest
    else if wait j.job_pid ==ℤ negsuc 0
    then (j ∷ js, true)
    else keep j rest

-- The second loop: the greatest id, or `max` if none is as great.
unfoldable pub max_id : (max : ℤ) → List JobEntry → ℤ
max_id max [] = max
max_id max (j ∷ js) = max_id (if leb_ℤ max j.job_id then j.job_id else max) js

-- `removeFinishedJobs` behind its first loop.
unfoldable pub recount : List JobEntry × Bool → JobsList → JobsList
recount (js, true) jobs = record jobs { jobs_list = js }
recount ([], false) jobs = record { jobs_list = []; max_index = pos 1; cur_size = pos 0 }
recount (j ∷ js, false) jobs = record {
  jobs_list = j ∷ js;
  max_index = max_id (pos 1) (j ∷ js) +ℤ pos 1;
  cur_size = pos (length (j ∷ js));
}

unfoldable pub remove_finished_jobs : (wait : ℤ → ℤ) → JobsList → JobsList
remove_finished_jobs wait jobs = recount (sweep wait jobs.jobs_list) jobs

-- What it prints.
unfoldable pub remove_finished_events : (wait : ℤ → ℤ) → JobsList → List Event
remove_finished_events wait jobs =
    if (sweep wait jobs.jobs_list).1
    then complain (codes "smash error: waitpid failed") ∷ []
    else []

abbrev pub push_back : JobEntry → JobsList → JobsList
push_back j jobs = record {
  jobs_list = jobs.jobs_list ++ j ∷ [];
  max_index = jobs.max_index +ℤ pos 1;
  cur_size = jobs.cur_size +ℤ pos 1;
}

-- `addJob` behind `removeFinishedJobs`, for a command that is not NULL.
unfoldable pub add_entry : (cmd : Text) (pid : ℤ) → JobsList → JobsList
add_entry cmd pid jobs =
    if jobs.cur_size ==ℤ max_jobs_num
    then jobs
    else push_back
        (record {
          cmd = cmd;
          job_pid = pid;
          job_id = jobs.max_index;
          index_in_list = jobs.cur_size;
        })
        jobs

unfoldable pub add_job : (wait : ℤ → ℤ) (cmd : Text) (pid : ℤ) → JobsList → JobsList
add_job wait cmd pid jobs = add_entry cmd pid (remove_finished_jobs wait jobs)

unfoldable pub get_job_by_id : ℤ → List JobEntry → Option JobEntry
get_job_by_id id [] = none
get_job_by_id id (j ∷ js) =
    let rest = get_job_by_id id js in if j.job_id ==ℤ id then some j else rest

-- The loop of `getLastJob`.
unfoldable pub last_id : (last_returned : ℤ) → List JobEntry → ℤ
last_id last_returned [] = last_returned
last_id last_returned (j ∷ js) =
    last_id (if ltb_ℤ last_returned j.job_id then j.job_id else last_returned) js

-- The id that it stores, and the job.
unfoldable pub get_last_job : List JobEntry → ℤ × Option JobEntry
get_last_job js = (last_id (negsuc 0) js, get_job_by_id (last_id (negsuc 0) js) js)

abbrev pub put_back : JobEntry → Option (List JobEntry) → Option (List JobEntry)
put_back j none = none
put_back j (some js) = some (j ∷ js)

-- The list without the first job of the id, if there is one.
unfoldable pub erase_job : ℤ → List JobEntry → Option (List JobEntry)
erase_job id [] = none
erase_job id (j ∷ js) =
    let rest = put_back j (erase_job id js) in if j.job_id ==ℤ id then some js else rest

unfoldable pub erased : ℤ → Option (List JobEntry) → JobsList → JobsList
erased id none jobs = jobs
erased id (some js) jobs = record {
  jobs_list = js;
  max_index = if id ==ℤ jobs.max_index then (get_last_job js).0 else jobs.max_index;
  cur_size = jobs.cur_size -ℤ pos 1;
}

unfoldable pub remove_job_by_id : ℤ → JobsList → JobsList
remove_job_by_id id jobs = erased id (erase_job id jobs.jobs_list) jobs

-- The lines of `printJobsList`.
unfoldable pub list_lines : List JobEntry → List Event
list_lines [] = []
list_lines (j ∷ js) =
    out (str (codes "[") ∷ num j.job_id ∷ str (codes "] ") ∷ str j.cmd ∷ []) ∷ list_lines js

-- `killAllJobs`: what it does, and whether it reaches its end, where it clears the list.
unfoldable pub kill_all_jobs : (kill_succeeds : ℤ → ℤ → Bool) → List JobEntry → List Event × Bool
kill_all_jobs kill_succeeds [] = ([], true)
kill_all_jobs kill_succeeds (j ∷ js) =
    let line = out (num j.job_pid ∷ str (codes ": ") ∷ str j.cmd ∷ []) in
    let (events, cleared) = kill_all_jobs kill_succeeds js in
    if kill_succeeds j.job_pid (pos 9)
    then (line ∷ sends j.job_pid (pos 9) ∷ events, cleared)
    else (line ∷ complain (codes "smash error: kill failed") ∷ [], false)

-- The changes of the list that the commands make.
pub data Change : Type 0 where
  finishes : (wait : ℤ → ℤ) → Change
  adds : (wait : ℤ → ℤ) (cmd : Text) (pid : ℤ) → Change
  removes : (id : ℤ) → Change

unfoldable pub change : JobsList → Change → JobsList
change jobs (finishes wait) = remove_finished_jobs wait jobs
change jobs (adds wait cmd pid) = add_job wait cmd pid jobs
change jobs (removes id) = remove_job_by_id id jobs

-- The list at the start of the shell, and after one change after the other.
abbrev pub no_jobs : JobsList
no_jobs = record { jobs_list = []; max_index = pos 1; cur_size = pos 0 }

unfoldable pub changes : JobsList → List Change → JobsList
changes jobs [] = jobs
changes jobs (c ∷ cs) = changes (change jobs c) cs
