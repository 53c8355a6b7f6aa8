-- ===== src/Smash/Types.antt =====
-- The data of OS_HW1_234123/Commands.h, what the shell asks of the operating system, and what it does
-- that can be seen from outside.
use os.Prelude.{ℕ, suc, Bool, Option, List, [], ◌∷◌}
use os.Prelude.Int.{ℤ, pos}

abbrev pub Text : Type 0
Text = List ℕ

-- `JobsList::JobEntry`
pub record JobEntry : Type 0 where
  pub cmd : Text
  pub job_pid : ℤ
  pub job_id : ℤ
  pub index_in_list : ℤ

pub record JobsList : Type 0 where
  pub jobs_list : List JobEntry
  pub max_index : ℤ
  pub cur_size : ℤ

abbrev pub max_jobs_num : ℤ
max_jobs_num = pos 100

-- `SmallShell`
pub record Shell : Type 0 where
  pub pid : ℤ
  pub prompt : Text
  pub last_working_directory : Text
  pub foreground_command_pid : ℤ
  pub jobs : JobsList

-- What a line creates: the class of the command, with the members that its constructor sets.
pub data Command : Type 0 where
  chprompt show_pid get_curr_dir change_dir jobs_command foreground quit kill :
      (parametrs : List Text) → Command
  chmod : (parametrs : List Text) → Command
  external : (cmd_line : Text) (parametrs : List Text) (is_background is_complex : Bool) → Command
  redirection : (cmd_line file_name : Text) (is_append : Bool) → Command
  pipe : (first_command second_command : Text) (with_ampersand : Bool) → Command

-- How a `waitpid` that may wait ends.
pub data Waited : Type 0 where
  wait_failed ended stopped : Waited

-- What the system calls return while one line is executed. `wait_nohang k pid` is `waitpid` with
-- WNOHANG in the pass number `k` over the jobs; `fork k` is the call number `k`, in the parent.
pub record Os : Type 0 where
  pub wait_nohang : ℕ → ℤ → ℤ
  pub wait_untraced : ℤ → Waited
  pub kill_succeeds : (pid signal : ℤ) → Bool
  pub fork : ℕ → ℤ
  pub malloc_succeeds : Bool
  pub getcwd : Option Text
  pub chdir_succeeds : Text → Bool
  pub chmod_succeeds : Text → ℤ → Bool
  pub opens : (file : Text) (appends : Bool) → Bool
  pub dup_succeeds : Bool
  pub redirects : Bool
  pub close_succeeds : Bool
  pub restores : Bool

-- The results that are left after one pass over the jobs.
abbrev pub later : Os → Os
later os = record os { wait_nohang = λ k. os.wait_nohang (suc k) }

-- A part of a line that is printed.
pub data Item : Type 0 where
  str : Text → Item
  num : ℤ → Item

-- `out` is a line on `cout`, `err` one on `cerr` or from `perror`.
pub data Event : Type 0 where
  out err : List Item → Event
  sends : (pid signal : ℤ) → Event
  starts : (pid : ℤ) (path : Text) (argv : List Text) → Event
  spawns : (pid : ℤ) (cmd_line : Text) → Event
  waits : (pid : ℤ) → Event
  changes_dir : Text → Event
  changes_mode : Text → ℤ → Event
  redirects_to : (file : Text) (appends : Bool) → Event
  restores_stdout : Event

-- How a command ends; `undefined` is the use of memory that was not written, or outside an array,
-- behind the events in front of it.
pub data Outcome : Type 0 where
  returns : Shell → List Event → Outcome
  undefined : List Event → Outcome

abbrev pub complain : Text → Event
complain t = err (str t ∷ [])
