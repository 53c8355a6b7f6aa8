-- ===== src/Weights/Examples.antt =====
-- The system calls of OS_HW2_234123/kernel/hw2.c at a small family of tasks.
use os.Prelude.{inr, ◌≡◌, refl, some, [], ◌∷◌, map, arith, ◌==◌, if◌then◌else◌}
use os.Prelude.Int.{pos, ◌+ℤ◌}
use os.Weights.{
  Task, Tasks, Found, sys_set_weight, sys_get_weight, sys_get_lightest_divisor_ancestor,
  sys_get_siblings_sum,
}
use os.Weights.Ancestor.{IsLightest, lightest_divisor_ancestor_lem}
use os.Weights.Siblings.{total, get_weight-set_weight, siblings_sum_lem}

-- Init (address 100) has a child of weight 3, which has children of weight 6, 4 and 5.
abbrev family : Tasks
family p =
    if p == 100
    then record { pid = 1; weight = pos 0; real_parent = 0; children = 200 ∷ [] }
    else if p == 200
    then record { pid = 20; weight = pos 3; real_parent = 100; children = 300 ∷ 400 ∷ 500 ∷ [] }
    else if p == 300
    then record { pid = 30; weight = pos 6; real_parent = 200; children = [] }
    else if p == 400
    then record { pid = 40; weight = pos 4; real_parent = 200; children = [] }
    else record { pid = 50; weight = pos 5; real_parent = 200; children = [] }

lightest_divisor_ancestor_lem_example :
    (r : Found) × (sys_get_lightest_divisor_ancestor 3 300 family ≡ some r.min_pid)
    × IsLightest (pos 6) (map family (300 ∷ 200 ∷ 100 ∷ [])) r
lightest_divisor_ancestor_lem_example =
    lightest_divisor_ancestor_lem family 300 (200 ∷ 100 ∷ []) 3
      (omega arith, refl, (omega arith, refl, refl)) (omega arith) (omega arith) (λ e. cc)

lightest_of_300 : sys_get_lightest_divisor_ancestor 3 300 family ≡ some 20
unfolding sys_get_lightest_divisor_ancestor os.Weights.ancestor_loop os.Weights.consider
lightest_of_300 = refl

get_weight-set_weight_example :
    let r = sys_set_weight 300 (pos 8) family in
    (r.0 ≡ pos 0) × (sys_get_weight 300 r.1 ≡ pos 8) × (sys_get_weight 400 r.1 ≡ pos 4)
unfolding sys_get_weight
get_weight-set_weight_example = get_weight-set_weight 300 400 8 family (omega arith)

siblings_sum_lem_example : sys_get_siblings_sum 400 family ≡ total family (300 ∷ 500 ∷ [])
siblings_sum_lem_example = siblings_sum_lem family 400 (300 ∷ []) (500 ∷ []) (inr refl)

siblings_of_400 : total family (300 ∷ 500 ∷ []) ≡ pos 11
unfolding total ◌+ℤ◌
siblings_of_400 = refl
