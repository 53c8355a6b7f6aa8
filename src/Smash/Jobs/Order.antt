-- ===== src/Smash/Jobs/Order.antt =====
-- The order of the ids of the jobs of OS_HW1_234123/Commands.cpp.
use os.Prelude.{
  suc, ◌≤◌, ◌≡◌, refl, subst, Bool, true, false, Option, none, some, List, [], ◌∷◌, ◌++◌, arith,
  length, length-append, Bool-cases, inl, inr,
}
use os.Prelude.Int.{
  ℤ, pos, negsuc, ◌+ℤ◌, ltb_ℤ, leb_ℤ, ◌==ℤ◌, ◌≤ℤ◌, ◌<ℤ◌, ==ℤ_iff, int_laws, +ℤ_parts, -ℤ_parts,
}
use os.Smash.Types.{Text, JobEntry, JobsList, max_jobs_num}
use os.Smash.Jobs.{
  sweep, max_id, recount, remove_finished_jobs, add_entry, add_job, put_back, erase_job, erased,
  remove_job_by_id, Change, finishes, adds, removes, change, no_jobs, changes,
}

-- The ids ascend, strictly between `lo` and `hi`.
abbrev pub Ascending : (lo : ℤ) → List JobEntry → (hi : ℤ) → Type 0
Ascending lo [] hi = lo <ℤ hi
Ascending lo (j ∷ js) hi = (lo <ℤ j.job_id) × Ascending j.job_id js hi

-- The list as the commands leave it.
pub record IsValid (jobs : JobsList) : Type 0 where
  pub ids : Ascending (pos 0) jobs.jobs_list jobs.max_index
  pub counted : pos (length jobs.jobs_list) ≤ℤ jobs.cur_size
  pub capped : jobs.cur_size ≤ℤ max_jobs_num

pub lower-Ascending :
    (lo' lo hi : ℤ) (js : List JobEntry) → lo' ≤ℤ lo → Ascending lo js hi → Ascending lo' js hi
lower-Ascending lo' lo hi [] le h = omega (arith, le, h)
lower-Ascending lo' lo hi (j ∷ js) le h = (omega (arith, le, h.0), h.1)

pub Ascending-lt : (lo hi : ℤ) (js : List JobEntry) → Ascending lo js hi → lo <ℤ hi
Ascending-lt lo hi [] h = h
Ascending-lt lo hi (j ∷ js) h = omega (arith, h.0, Ascending-lt j.job_id hi js h.1)

sweep-Ascending :
    (wait : ℤ → ℤ) (lo hi : ℤ) (js : List JobEntry)
    → Ascending lo js hi
    → Ascending lo (sweep wait js).0 hi
unfolding sweep
sweep-Ascending wait lo hi [] h = h
sweep-Ascending wait lo hi (j ∷ js) h = elim (Bool-cases (ltb_ℤ (pos 0) (wait j.job_pid))) [
  | inl finished ↦ rw finished (
      lower-Ascending lo j.job_id hi _ (omega (arith, h.0))
        (sweep-Ascending wait j.job_id hi js h.1))
  | inr other ↦ rw other (elim (Bool-cases (wait j.job_pid ==ℤ negsuc 0)) [
    | inl failed ↦ rw failed h
    | inr running ↦ rw running (h.0, sweep-Ascending wait j.job_id hi js h.1)
  ])
]

length-sweep : (wait : ℤ → ℤ) (js : List JobEntry) → length (sweep wait js).0 ≤ length js
unfolding sweep
length-sweep wait [] = omega arith
length-sweep wait (j ∷ js) = ground (arith, length-sweep wait js)

-- The greatest id and one more bounds them all.
max_id-Ascending :
    (max hi : ℤ) (js : List JobEntry)
    → Ascending max js hi
    → Ascending max js (max_id max js +ℤ pos 1)
unfolding max_id
max_id-Ascending max hi [] h = omega int_laws
max_id-Ascending max hi (j ∷ js) h =
    let greater : leb_ℤ max j.job_id ≡ true = ground arith in
    (h.0, rw greater (max_id-Ascending j.job_id hi js h.1))

recount-IsValid :
    (js : List JobEntry) (failed : Bool) (jobs : JobsList)
    → Ascending (pos 0) js jobs.max_index
    → length js ≤ length jobs.jobs_list
    → IsValid jobs
    → IsValid (recount (js, failed) jobs)
unfolding recount
recount-IsValid js true jobs ids shorter is = record {
  ids = ids;
  counted = omega (arith, is.counted, shorter);
  capped = is.capped;
}
recount-IsValid [] false jobs ids shorter is = record {
  ids = omega arith;
  counted = omega arith;
  capped = omega arith;
}
recount-IsValid (j ∷ js) false jobs ids shorter is =
    let positive : leb_ℤ (pos 1) j.job_id ≡ true = ground (arith, ids.0) in
    record {
      ids =
          (ids.0, unfold max_id in rw positive (max_id-Ascending j.job_id jobs.max_index js ids.1));
      counted = omega arith;
      capped = omega (arith, is.counted, is.capped, shorter);
    }

pub remove_finished_jobs-IsValid :
    (wait : ℤ → ℤ) (jobs : JobsList) → IsValid jobs → IsValid (remove_finished_jobs wait jobs)
unfolding remove_finished_jobs
remove_finished_jobs-IsValid wait jobs is =
    recount-IsValid (sweep wait jobs.jobs_list).0 (sweep wait jobs.jobs_list).1 jobs
      (sweep-Ascending wait (pos 0) jobs.max_index jobs.jobs_list is.ids)
      (length-sweep wait jobs.jobs_list) is

snoc-Ascending :
    (lo hi : ℤ) (js : List JobEntry) (j : JobEntry)
    → Ascending lo js hi
    → j.job_id ≡ hi
    → Ascending lo (js ++ j ∷ []) (hi +ℤ pos 1)
snoc-Ascending lo hi [] j h e = rw e (h, omega int_laws)
snoc-Ascending lo hi (k ∷ js) j h e = (h.0, snoc-Ascending k.job_id hi js j h.1 e)

lt_of_ne : (a b : ℤ) → (a ==ℤ b) ≡ false → a ≤ℤ b → a <ℤ b
lt_of_ne a b e le = ground arith

add_entry-IsValid :
    (cmd : Text) (pid : ℤ) (jobs : JobsList) → IsValid jobs → IsValid (add_entry cmd pid jobs)
unfolding add_entry
add_entry-IsValid cmd pid jobs is = elim (Bool-cases (jobs.cur_size ==ℤ max_jobs_num)) [
  | inl full ↦ rw full is
  | inr room ↦
      let j : JobEntry = record {
        cmd = cmd;
        job_pid = pid;
        job_id = jobs.max_index;
        index_in_list = jobs.cur_size;
      } in
      rw room (record {
        ids = snoc-Ascending (pos 0) jobs.max_index jobs.jobs_list j is.ids refl;
        counted = omega (
          arith,
          is.counted,
          length-append jobs.jobs_list (j ∷ []),
          +ℤ_parts jobs.cur_size (pos 1),
        );
        capped = omega (
          arith,
          lt_of_ne jobs.cur_size max_jobs_num room is.capped,
          +ℤ_parts jobs.cur_size (pos 1),
        );
      })
]

-- What is left behind an erased job.
abbrev pub Erased : (lo hi : ℤ) (id : ℤ) → List JobEntry → Option (List JobEntry) → Type 0
Erased lo hi id js none = Unit
Erased lo hi id js (some ks) = (id <ℤ hi) × (suc (length ks) ≡ length js) × Ascending lo ks hi

put_back-Erased :
    (lo hi id : ℤ) (j : JobEntry) (js : List JobEntry) (o : Option (List JobEntry))
    → lo <ℤ j.job_id
    → Erased j.job_id hi id js o
    → Erased lo hi id (j ∷ js) (put_back j o)
put_back-Erased lo hi id j js none above h = tt
put_back-Erased lo hi id j js (some ks) above h = (h.0, omega (arith, h.1), (above, h.2))

erase_job-Erased :
    (lo hi id : ℤ) (js : List JobEntry) → Ascending lo js hi → Erased lo hi id js (erase_job id js)
unfolding erase_job
erase_job-Erased lo hi id [] h = tt
erase_job-Erased lo hi id (j ∷ js) h = elim (Bool-cases (j.job_id ==ℤ id)) [
  | inl found ↦
      let same : j.job_id ≡ id = (==ℤ_iff j.job_id id).0 found in
      rw found (
        subst (λ t. t <ℤ hi) same (Ascending-lt j.job_id hi js h.1),
        refl,
        lower-Ascending lo j.job_id hi js (omega (arith, h.0)) h.1,
      )
  | inr other ↦
      rw other (
        put_back-Erased lo hi id j js (erase_job id js) h.0
          (erase_job-Erased j.job_id hi id js h.1))
]

less_is_other : (a b : ℤ) → a <ℤ b → (a ==ℤ b) ≡ false
less_is_other a b lt = ground arith

erased-IsValid :
    (id : ℤ) (o : Option (List JobEntry)) (jobs : JobsList)
    → IsValid jobs
    → Erased (pos 0) jobs.max_index id jobs.jobs_list o
    → IsValid (erased id o jobs)
unfolding erased
erased-IsValid id none jobs is h = is
erased-IsValid id (some js) jobs is h = rw (less_is_other id jobs.max_index h.0) (record {
  ids = h.2;
  counted = omega (arith, is.counted, h.1, -ℤ_parts jobs.cur_size (pos 1));
  capped = omega (arith, is.capped, -ℤ_parts jobs.cur_size (pos 1));
})

pub remove_job_by_id-IsValid :
    (id : ℤ) (jobs : JobsList) → IsValid jobs → IsValid (remove_job_by_id id jobs)
unfolding remove_job_by_id
remove_job_by_id-IsValid id jobs is =
    erased-IsValid id _ jobs is (erase_job-Erased (pos 0) jobs.max_index id jobs.jobs_list is.ids)

pub add_job-IsValid :
    (wait : ℤ → ℤ) (cmd : Text) (pid : ℤ) (jobs : JobsList)
    → IsValid jobs
    → IsValid (add_job wait cmd pid jobs)
unfolding add_job
add_job-IsValid wait cmd pid jobs is =
    add_entry-IsValid cmd pid _ (remove_finished_jobs-IsValid wait jobs is)

pub change-IsValid : (jobs : JobsList) (c : Change) → IsValid jobs → IsValid (change jobs c)
unfolding change
change-IsValid jobs (finishes wait) is = remove_finished_jobs-IsValid wait jobs is
change-IsValid jobs (adds wait cmd pid) is = add_job-IsValid wait cmd pid jobs is
change-IsValid jobs (removes id) is = remove_job_by_id-IsValid id jobs is

changes_from-IsValid :
    (cs : List Change) (jobs : JobsList) → IsValid jobs → IsValid (changes jobs cs)
unfolding changes
changes_from-IsValid [] jobs is = is
changes_from-IsValid (c ∷ cs) jobs is =
    changes_from-IsValid cs (change jobs c) (change-IsValid jobs c is)

pub no_jobs-IsValid : IsValid no_jobs
no_jobs-IsValid = record { ids = omega arith; counted = omega arith; capped = omega arith }

-- From the empty list, whatever jobs are added, finish and are removed, and whatever `waitpid`
-- returns: the ids ascend from 1 and stay below `max_index`, and there are at most `cur_size` jobs,
-- which is at most MAX_JOBS_NUM.
pub changes-IsValid : (cs : List Change) → IsValid (changes no_jobs cs)
changes-IsValid cs = changes_from-IsValid cs no_jobs no_jobs-IsValid
