-- ===== src/Weights.antt =====
-- The system calls of OS_HW2_234123/kernel/hw2.c over the task structures that they read.
-- The kernel's task list is a function from addresses; `real_parent` and `children` are its links.
pub mod Ancestor
pub mod Siblings
mod Examples
use os.Prelude.{
  ℕ, zero, suc, ◌+◌, ◌%◌, Bool, true, false, ◌&&◌, ◌||◌, Option, none, some, List, [], ◌∷◌, ◌==◌,
  if◌then◌else◌,
}
use os.Prelude.Int.{ℤ, pos, negsuc, pos_part, neg_part, ◌+ℤ◌, ◌-ℤ◌, ltb_ℤ, ◌==ℤ◌}

abbrev pub TaskPtr : Type 0
TaskPtr = ℕ

-- The members of `struct task_struct` that the calls use; `weight` is the one that was added.
pub record Task : Type 0 where
  pub pid : ℕ
  pub weight : ℤ
  pub real_parent : TaskPtr
  pub children : List TaskPtr

abbrev pub Tasks : Type 0
Tasks = TaskPtr → Task

-- -EINVAL and -ESRCH.
abbrev pub einval : ℤ
einval = negsuc 21

abbrev pub esrch : ℤ
esrch = negsuc 2

unfoldable pub sys_hello : ℤ
sys_hello = pos 0

-- The weight that is set, with the call's result.
unfoldable pub sys_set_weight : (current : TaskPtr) → ℤ → Tasks → ℤ × Tasks
sys_set_weight current weight ts = if ltb_ℤ weight (pos 0) then (einval, ts) else (
  pos 0,
  λ p.
      if p == current
      then record {
        pid = (ts p).pid;
        weight = weight;
        real_parent = (ts p).real_parent;
        children = (ts p).children;
      }
      else ts p,
)

unfoldable pub sys_get_weight : (current : TaskPtr) → Tasks → ℤ
sys_get_weight current ts = (ts current).weight

abbrev pub magnitude : ℤ → ℕ
magnitude a = pos_part a + neg_part a

-- The test `a % b == 0` of C, whatever the signs.
abbrev pub rem_is_zero : ℤ → ℤ → Bool
rem_is_zero a b = (magnitude a % magnitude b) == 0

-- What the walk over the ancestors has found so far.
pub record Found : Type 0 where
  pub min_weight : ℤ
  pub min_pid : ℕ

-- One ancestor: `continue` at weight 0, and the two nested tests.
unfoldable pub consider : (cur_weight : ℤ) → Task → Found → Found
consider cur_weight a found =
    if a.weight ==ℤ pos 0
    then found
    else if rem_is_zero cur_weight a.weight
    then if ltb_ℤ a.weight found.min_weight
      then record { min_weight = a.weight; min_pid = a.pid }
      else found
    else found

-- The loop up to init; `none` means that the fuel ran out.
unfoldable pub ancestor_loop : ℕ → Tasks → (cur_weight : ℤ) → TaskPtr → Found → Option ℕ
ancestor_loop zero ts cur_weight p found = none
ancestor_loop (suc fuel) ts cur_weight p found =
    let up = (ts p).real_parent in
    let rest = ancestor_loop fuel ts cur_weight up (consider cur_weight (ts up) found) in
    if (ts p).pid == 1 then some found.min_pid else rest

unfoldable pub sys_get_lightest_divisor_ancestor : ℕ → (current : TaskPtr) → Tasks → Option ℕ
sys_get_lightest_divisor_ancestor fuel current ts =
    let cur = ts current in
    if cur.pid == 1
    then some cur.pid
    else if cur.weight ==ℤ pos 0
    then some cur.pid
    else ancestor_loop fuel ts cur.weight current
        (record { min_weight = cur.weight; min_pid = cur.pid })

-- `list_for_each` over the children of the parent: the sum of the weights and their number.
unfoldable pub siblings_loop : Tasks → List TaskPtr → ℤ → ℕ → ℤ × ℕ
siblings_loop ts [] sum_of_weights num_of_sibs = (sum_of_weights, num_of_sibs)
siblings_loop ts (c ∷ cs) sum_of_weights num_of_sibs =
    siblings_loop ts cs (sum_of_weights +ℤ (ts c).weight) (num_of_sibs + 1)

unfoldable pub sys_get_siblings_sum : (current : TaskPtr) → Tasks → ℤ
sys_get_siblings_sum current ts =
    let cur = ts current in
    let faza = ts cur.real_parent in
    let (sum_of_weights, num_of_sibs) = siblings_loop ts faza.children (pos 0) 0 in
    if (cur.pid == 0) || (cur.pid == 1)
    then esrch
    else if num_of_sibs == 1
    then esrch
    else sum_of_weights -ℤ cur.weight
