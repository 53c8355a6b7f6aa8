-- ===== src/Smash/Jobs/Upkeep.antt =====
-- What the searches and removals of OS_HW1_234123/Commands.cpp do to a list of jobs with ascending
-- ids.
use os.Prelude.{
  ◌≡◌, refl, true, false, some, List, [], ◌∷◌, ◌++◌, arith, length, Bool-cases, inl, inr,
  if◌then◌else◌,
}
use os.Prelude.Int.{ℤ, pos, negsuc, ltb_ℤ, ◌==ℤ◌, ◌≤ℤ◌, ◌<ℤ◌, ==ℤ_self}
use os.Smash.Types.{JobEntry, JobsList}
use os.Smash.Jobs.{
  sweep, recount, remove_finished_jobs, get_job_by_id, last_id, get_last_job, erase_job,
}
use os.Smash.Jobs.Order.{Ascending}

-- Every id is greater than `lo`, so an equal one is elsewhere.
greater_is_other :
    (lo hi : ℤ) (js ks : List JobEntry) (j : JobEntry)
    → Ascending lo (js ++ j ∷ ks) hi
    → (lo <ℤ j.job_id)
greater_is_other lo hi [] ks j h = h.0
greater_is_other lo hi (k ∷ js) ks j h =
    omega (arith, h.0, greater_is_other k.job_id hi js ks j h.1)

differs :
    (lo hi : ℤ) (js ks : List JobEntry) (k j : JobEntry)
    → Ascending lo (k ∷ js ++ j ∷ ks) hi
    → (k.job_id ==ℤ j.job_id) ≡ false
differs lo hi js ks k j h = let lt = greater_is_other k.job_id hi js ks j h.1 in ground (arith, lt)

-- `getJobById` finds each job of the list by its id.
pub get_job_by_id_lem :
    (lo hi : ℤ) (js ks : List JobEntry) (j : JobEntry)
    → Ascending lo (js ++ j ∷ ks) hi
    → get_job_by_id j.job_id (js ++ j ∷ ks) ≡ some j
unfolding get_job_by_id
get_job_by_id_lem lo hi [] ks j h = rw (==ℤ_self j.job_id)
get_job_by_id_lem lo hi (k ∷ js) ks j h =
    rw (differs lo hi js ks k j h) (get_job_by_id_lem k.job_id hi js ks j h.1)

-- The erased job is the one with the id, and the others keep their order.
pub erase_job_lem :
    (lo hi : ℤ) (js ks : List JobEntry) (j : JobEntry)
    → Ascending lo (js ++ j ∷ ks) hi
    → erase_job j.job_id (js ++ j ∷ ks) ≡ some (js ++ ks)
unfolding erase_job
erase_job_lem lo hi [] ks j h = rw (==ℤ_self j.job_id)
erase_job_lem lo hi (k ∷ js) ks j h =
    rw (differs lo hi js ks k j h, erase_job_lem k.job_id hi js ks j h.1)

last_id-snoc :
    (lo hi last : ℤ) (js : List JobEntry) (j : JobEntry)
    → last ≤ℤ lo
    → Ascending lo (js ++ j ∷ []) hi
    → last_id last (js ++ j ∷ []) ≡ j.job_id
unfolding last_id
last_id-snoc lo hi last [] j le h =
    let greater : ltb_ℤ last j.job_id ≡ true = ground (arith, le, h.0) in rw greater
last_id-snoc lo hi last (k ∷ js) j le h =
    let greater : ltb_ℤ last k.job_id ≡ true = ground (arith, le, h.0) in
    rw (greater, last_id) (last_id-snoc k.job_id hi k.job_id js j (omega arith) h.1)

-- `getLastJob` returns the job at the end of the list, whose id is the greatest.
pub get_last_job-snoc :
    (hi : ℤ) (js : List JobEntry) (j : JobEntry)
    → Ascending (pos 0) (js ++ j ∷ []) hi
    → get_last_job (js ++ j ∷ []) ≡ (j.job_id, some j)
unfolding get_last_job
get_last_job-snoc hi js j h =
    rw (last_id-snoc (pos 0) hi (negsuc 0) js j (omega arith) h)
      (rw (get_job_by_id_lem (pos 0) hi js [] j h))

-- The jobs of which `waitpid` does not say that they have finished.
abbrev pub unfinished : (wait : ℤ → ℤ) → List JobEntry → List JobEntry
unfinished wait [] = []
unfinished wait (j ∷ js) =
    let rest = unfinished wait js in if ltb_ℤ (pos 0) (wait j.job_pid) then rest else j ∷ rest

-- `waitpid` fails for none of them.
abbrev pub NoFailure : (wait : ℤ → ℤ) → List JobEntry → Type 0
NoFailure wait [] = Unit {0}
NoFailure wait (j ∷ js) = ((wait j.job_pid ==ℤ negsuc 0) ≡ false) × NoFailure wait js

sweep-unfinished :
    (wait : ℤ → ℤ) (js : List JobEntry)
    → NoFailure wait js
    → sweep wait js ≡ (unfinished wait js, false)
unfolding sweep
sweep-unfinished wait [] h = refl
sweep-unfinished wait (j ∷ js) h = elim (Bool-cases (ltb_ℤ (pos 0) (wait j.job_pid))) [
  | inl finished ↦ rw finished (sweep-unfinished wait js h.1)
  | inr other ↦ rw (other, h.0, sweep-unfinished wait js h.1)
]

recount_jobs : (js : List JobEntry) (jobs : JobsList) → (recount (js, false) jobs).jobs_list ≡ js
unfolding recount
recount_jobs [] jobs = refl
recount_jobs (j ∷ js) jobs = refl

recount_size :
    (js : List JobEntry) (jobs : JobsList) → (recount (js, false) jobs).cur_size ≡ pos (length js)
unfolding recount
recount_size [] jobs = refl
recount_size (j ∷ js) jobs = refl

-- If `waitpid` fails for no job, `removeFinishedJobs` keeps exactly the unfinished jobs, in their
-- order, and counts them.
pub remove_finished_jobs-unfinished :
    (wait : ℤ → ℤ) (jobs : JobsList)
    → NoFailure wait jobs.jobs_list
    → ((remove_finished_jobs wait jobs).jobs_list ≡ unfinished wait jobs.jobs_list)
      × ((remove_finished_jobs wait jobs).cur_size ≡ pos (length (unfinished wait jobs.jobs_list)))
unfolding remove_finished_jobs
remove_finished_jobs-unfinished wait jobs h = rw (sweep-unfinished wait jobs.jobs_list h) (
  recount_jobs (unfinished wait jobs.jobs_list) jobs,
  recount_size (unfinished wait jobs.jobs_list) jobs,
)
