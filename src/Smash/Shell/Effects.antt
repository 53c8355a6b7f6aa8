-- ===== src/Smash/Shell/Effects.antt =====
-- What commands of OS_HW1_234123/Commands.cpp change: the directory, the jobs and the output.
use os.Prelude.{
  ◌≡◌, refl, ◌⊎◌, inl, inr, Bool, true, false, Option, none, some, List, [], ◌∷◌, ◌++◌, Bool-cases,
  ◌&&◌, if◌then◌else◌,
}
use os.Prelude.Int.{negsuc, ◌==ℤ◌}
use os.Text.{codes, str_eq}
use os.Smash.Types.{Text, max_jobs_num, Shell, Os, Event, changes_dir, Outcome, returns, complain}
use os.Smash.Jobs.{add_entry, add_job}
use os.Smash.Commands.{
  no_directory, with_directory, enter, change_to, execute_change_dir, after_pass, program,
  start_program, after_fork, execute_external,
}

-- The calls with which a directory is entered from `here` succeed.
pub record Enters (os : Os) (here path : Text) : Type 0 where
  pub allocated : os.malloc_succeeds ≡ true
  pub told : os.getcwd ≡ some here
  pub entered : os.chdir_succeeds path ≡ true

change_to_entered :
    (os : Os) (here path : Text) (s : Shell)
    → Enters os here path
    → change_to os path s
      ≡ returns (record s { last_working_directory = here }) (changes_dir path ∷ [])
unfolding change_to enter
change_to_entered os here path s e = rw (e.told, e.allocated, e.entered, change_to, enter)

-- `cd` to a directory and then `cd -`, where the system calls succeed: the second goes back to the
-- directory of the first, and the directory to which a further `cd -` goes is the one it left.
pub change_dir_back :
    (os os' : Os) (name name' dir here there : Text) (s : Shell)
    → str_eq dir (codes "-") ≡ false
    → str_eq here no_directory ≡ false
    → Enters os here dir
    → Enters os' there here
    → (t : Shell) × (execute_change_dir os (name ∷ dir ∷ []) s ≡ returns t (changes_dir dir ∷ []))
      × (execute_change_dir os' (name' ∷ codes "-" ∷ []) t
          ≡ returns (record s { last_working_directory = there }) (changes_dir here ∷ []))
unfolding execute_change_dir
change_dir_back os os' name name' dir here there s other set e e' = (
  record s { last_working_directory = here },
  rw other (change_to_entered os here dir s e),
  rw set (change_to_entered os' there here (record s { last_working_directory = here }) e'),
)

-- The directory that is asked for.
abbrev pub target : (dir : Text) → Shell → Text
target dir s = if str_eq dir (codes "-") then s.last_working_directory else dir

-- The directory is entered, and the one that is left is remembered.
abbrev pub IsEntered : Os → (path : Text) → Shell → Outcome → Type 0
IsEntered os path s o =
    (here : Text) × (os.getcwd ≡ some here)
    × (os.chdir_succeeds path ≡ true)
    × (o ≡ returns (record s { last_working_directory = here }) (changes_dir path ∷ []))

-- One line of an error is printed.
abbrev pub IsRefused : Shell → Outcome → Type 0
IsRefused s o = (m : Text) × (o ≡ returns s (complain m ∷ []))

-- One of the calls with which a directory is entered fails.
abbrev pub CallFails : Os → (path : Text) → Type 0
CallFails os path =
    (os.getcwd ≡ none) ⊎ ((os.malloc_succeeds ≡ false) ⊎ (os.chdir_succeeds path ≡ false))

-- The directory is entered, or a call fails and the error is printed.
abbrev pub Tried : Os → (path : Text) → Shell → Outcome → Type 0
Tried os path s o = IsEntered os path s o ⊎ (CallFails os path × IsRefused s o)

enter-Tried :
    (os : Os) (path here : Text) (s : Shell)
    → os.getcwd ≡ some here
    → Tried os path s (enter os path here s)
unfolding enter
enter-Tried os path here s told = elim (Bool-cases (os.chdir_succeeds path)) [
  | inl entered ↦ rw entered (inl (here, told, refl, refl))
  | inr refused ↦ rw refused (inr (inr (inr refl), (_, refl)))
]

directory-Tried :
    (os : Os) (path : Text) (rest : Text → Outcome) (s : Shell) (o : Option Text)
    → os.getcwd ≡ o
    → ((here : Text) → os.getcwd ≡ some here → Tried os path s (rest here))
    → Tried os path s (with_directory o rest s)
directory-Tried os path rest s none told h = inr (inl told, (_, refl))
directory-Tried os path rest s (some here) told h = h here told

allocated-Tried :
    (os : Os) (path : Text) (s : Shell) (o : Outcome) (given : Bool)
    → os.malloc_succeeds ≡ given
    → Tried os path s o
    → Tried os path s
        (if given then o else returns s (complain (codes "smash error: malloc failed") ∷ []))
allocated-Tried os path s o true told h = h
allocated-Tried os path s o false told h = inr (inr (inl told), (_, refl))

change_to-Tried : (os : Os) (path : Text) (s : Shell) → Tried os path s (change_to os path s)
unfolding change_to
change_to-Tried os path s = directory-Tried os path _ s os.getcwd refl (λ first told.
    allocated-Tried os path s _ os.malloc_succeeds refl
      (directory-Tried os path _ s os.getcwd refl (λ here told'. enter-Tried os path here s told')))

-- `cd` with one argument: `-` before any directory was left, or a directory that is tried.
abbrev pub ChangesTo : Os → (dir : Text) → Shell → Outcome → Type 0
ChangesTo os dir s o =
    if str_eq dir (codes "-") && str_eq s.last_working_directory no_directory
    then IsRefused s o
    else Tried os (target dir s) s o

-- What `cd` with these arguments behind its name does.
abbrev pub Changes : Os → List Text → Shell → Outcome → Type 0
Changes os [] s o = o ≡ returns s []
Changes os (dir ∷ []) s o = ChangesTo os dir s o
Changes os (dir ∷ more ∷ ps) s o = IsRefused s o

-- `cd` with any arguments behind its name, whatever the system calls return. Without an argument
-- nothing happens. With one, either the directory that it names, for `-` the remembered one, is
-- entered and the one that is left is remembered, or one line of an error is printed and the shell
-- stays as it is: the latter if it is `-` and no directory is remembered, and else only if `getcwd`,
-- `malloc` or `chdir` fails. With more arguments one line of an error is printed and the shell stays
-- as it is.
pub change_dir_cases :
    (os : Os) (name : Text) (ps : List Text) (s : Shell)
    → Changes os ps s (execute_change_dir os (name ∷ ps) s)
unfolding execute_change_dir
change_dir_cases os name [] s = refl
change_dir_cases os name (dir ∷ []) s = elim (Bool-cases (str_eq dir (codes "-"))) [
  | inl back ↦ elim (Bool-cases (str_eq s.last_working_directory no_directory)) [
    | inl unset ↦ rw (back, unset) (_, refl)
    | inr set ↦ rw (back, set) (change_to-Tried os s.last_working_directory s)
  ]
  | inr forward ↦ rw forward (change_to-Tried os dir s)
]
change_dir_cases os name (dir ∷ more ∷ ps) s = (_, refl)

-- A background command whose `fork` succeeds, where there is room for a job behind the pass over the
-- finished ones: the new process is the last job of the list, its id is the one that was to come
-- next, and the shell does not wait for it.
pub external_background :
    (os : Os) (cmd_line name : Text) (ps : List Text) (s : Shell)
    → (os.fork 0 ==ℤ negsuc 0) ≡ false
    → ((after_pass os s).jobs.cur_size ==ℤ max_jobs_num) ≡ false
    → (t : Shell) × (es : List Event) × (execute_external os cmd_line (name ∷ ps) true false s
        ≡ returns t es)
      × (t.jobs.jobs_list
          ≡ (after_pass os s).jobs.jobs_list
            ++ record {
              cmd = cmd_line;
              job_pid = os.fork 0;
              job_id = (after_pass os s).jobs.max_index;
              index_in_list = (after_pass os s).jobs.cur_size;
            }
              ∷ [])
unfolding execute_external program start_program after_fork add_job add_entry
external_background os cmd_line name ps s forked room =
    rw (forked, room, execute_external, add_entry) (_, _, refl, refl)
