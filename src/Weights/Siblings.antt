-- ===== src/Weights/Siblings.antt =====
-- `sys_set_weight`, `sys_get_weight` and `sys_get_siblings_sum` of OS_HW2_234123/kernel/hw2.c.
use os.Prelude.{
  ℕ, ◌+◌, ltb, ◌≢◌, ◌≡◌, refl, ◌∙◌, ap, sym, ◌||◌, if◌then◌else◌, length-middle, List, [], ◌∷◌,
  ◌++◌, arith, ◌==◌, length, true, ◌⊎◌, inl, inr,
}
use os.Prelude.Int.{ℤ, pos, negsuc, ◌+ℤ◌, +ℤ_zero, +ℤ_assoc, +ℤ_left_comm, sum_less_own}
use os.Weights.{
  Tasks, TaskPtr, einval, esrch, sys_set_weight, sys_get_weight, siblings_loop,
  sys_get_siblings_sum,
}

-- `set_weight` refuses a negative weight with -EINVAL and changes nothing.
pub set_weight_negative :
    (current : TaskPtr) (n : ℕ) (ts : Tasks) → sys_set_weight current (negsuc n) ts ≡ (einval, ts)
unfolding sys_set_weight
set_weight_negative current n ts = ground arith

-- After `set_weight` of a weight that is not negative, `get_weight` returns that weight to the
-- caller and the old one to every other task.
pub get_weight-set_weight :
    (current other : TaskPtr) (n : ℕ) (ts : Tasks)
    → other ≢ current
    → let r = sys_set_weight current (pos n) ts in
      (r.0 ≡ pos 0)
      × (sys_get_weight current r.1 ≡ pos n)
      × (sys_get_weight other r.1 ≡ sys_get_weight other ts)
unfolding sys_set_weight sys_get_weight
get_weight-set_weight current other n ts ne = (ground arith, ground arith, ground arith)

×_path : {a b : ℤ} {m n : ℕ} → a ≡ b → m ≡ n → ◌≡◌ {A = ℤ × ℕ} (a, m) (b, n)
×_path p q = λ i. (p i, q i)

-- The sum of the weights of some tasks.
unfoldable pub total : Tasks → List TaskPtr → ℤ
total ts [] = pos 0
total ts (c ∷ cs) = (ts c).weight +ℤ total ts cs

siblings_loop-total :
    (ts : Tasks) (cs : List TaskPtr) (sum : ℤ) (n : ℕ)
    → siblings_loop ts cs sum n ≡ (sum +ℤ total ts cs, n + length cs)
unfolding siblings_loop total
siblings_loop-total ts [] sum n = ×_path (sym (+ℤ_zero sum)) (omega arith)
siblings_loop-total ts (c ∷ cs) sum n =
    siblings_loop-total ts cs _ _ ∙ ×_path (+ℤ_assoc sum (ts c).weight (total ts cs)) (omega arith)

total-middle :
    (ts : Tasks) (xs : List TaskPtr) (c : TaskPtr) (ys : List TaskPtr)
    → total ts (xs ++ c ∷ ys) ≡ (ts c).weight +ℤ total ts (xs ++ ys)
unfolding total
total-middle ts [] c ys = refl
total-middle ts (x ∷ xs) c ys =
    ap (λ t. (ts x).weight +ℤ t) (total-middle ts xs c ys)
    ∙ +ℤ_left_comm (ts x).weight (ts c).weight (total ts (xs ++ ys))

siblings_of :
    (ts : Tasks) (current : TaskPtr) (xs ys : List TaskPtr)
    → (ts (ts current).real_parent).children ≡ xs ++ current ∷ ys
    → sys_get_siblings_sum current ts
      ≡ (if ltb (ts current).pid 2 || (length (xs ++ ys) == 0) then esrch else total ts (xs ++ ys))
unfolding sys_get_siblings_sum
siblings_of ts current xs ys family =
    rw
      (
        family,
        siblings_loop-total ts (xs ++ current ∷ ys) (pos 0) 0,
        total-middle ts xs current ys,
        sum_less_own (ts current).weight (total ts (xs ++ ys)),
        length-middle xs current ys,
      )
      (ground arith)

-- `get_siblings_sum` returns -ESRCH to the idle task and to init, wherever they stand. To another task
-- that is in its parent's list of children, as the leader of a thread group is, it returns -ESRCH if
-- no other child is in the list, and else the sum of the weights of the other children.
pub siblings_sum_lem :
    (ts : Tasks) (current : TaskPtr) (xs ys : List TaskPtr)
    → (ltb (ts current).pid 2 ≡ true)
      ⊎ ((ts (ts current).real_parent).children ≡ xs ++ current ∷ ys)
    → sys_get_siblings_sum current ts
      ≡ (if ltb (ts current).pid 2 || (length (xs ++ ys) == 0) then esrch else total ts (xs ++ ys))
unfolding sys_get_siblings_sum
siblings_sum_lem ts current xs ys (inl first) =
    let refused : (((ts current).pid == 0) || ((ts current).pid == 1)) ≡ true = ground arith in
    rw (first, refused) refl
siblings_sum_lem ts current xs ys (inr family) = siblings_of ts current xs ys family
