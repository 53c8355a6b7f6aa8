-- ===== src/Weights/Ancestor.antt =====
-- `sys_get_lightest_divisor_ancestor` of OS_HW2_234123/kernel/hw2.c.
use os.Prelude.{
  ℕ, zero, suc, ◌<◌, ◌≡◌, ◌≢◌, refl, true, false, some, List, [], ◌∷◌, ◌++◌, map, arith, ◌==◌,
  Bool-cases, inl, inr, append_assoc, length, append-nil, subst, sym, ◌⊎◌,
}
use os.Prelude.Int.{ℤ, pos, ◌≤ℤ◌, ◌<ℤ◌, ltb_ℤ, ◌==ℤ◌, ==ℤ_iff}
use native.Mathlib.Nat.{mod_self}
use os.Weights.{
  Task, Tasks, TaskPtr, Found, rem_is_zero, consider, ancestor_loop,
  sys_get_lightest_divisor_ancestor,
}

abbrev pub All {ℓ} : {A : Type ℓ} → (A → Type 0) → List A → Type 0
All P [] = Unit {0}
All P (x ∷ xs) = P x × All P xs

-- The tasks `l` are the ancestors of `p`, from its parent to init.
abbrev pub Ancestors : Tasks → TaskPtr → List TaskPtr → Type 0
Ancestors ts p [] = (ts p).pid ≡ 1
Ancestors ts p (a ∷ l) = ((ts p).pid ≢ 1) × ((ts p).real_parent ≡ a) × Ancestors ts a l

-- A weight that counts: not 0, and a divisor of the caller's.
abbrev pub Divides : ℤ → Task → Type 0
Divides w t = ((t.weight ==ℤ pos 0) ≡ false) × (rem_is_zero w t.weight ≡ true)

-- In `l` the task with the pid is the lightest divisor, and the first one of its weight.
pub record IsLightest (w : ℤ) (l : List Task) (found : Found) : Type 0 where
  pub front : List Task
  pub best : Task
  pub back : List Task
  pub whole : l ≡ front ++ best ∷ back
  pub pid_is : best.pid ≡ found.min_pid
  pub weight_is : best.weight ≡ found.min_weight
  pub divisor : Divides w best
  pub heavier : All (λ t. Divides w t → found.min_weight <ℤ t.weight) front
  pub no_lighter : All (λ t. Divides w t → found.min_weight ≤ℤ t.weight) back

All-append {ℓ} :
    {A : Type ℓ} (P : A → Type 0) (front back : List A)
    → All P front × All P back
    → All P (front ++ back)
All-append P [] back h = h.1
All-append P (a ∷ l) back h = (h.0.0, All-append P l back (h.0.1, h.1))

All-mono {ℓ} :
    {A : Type ℓ} (P Q : A → Type 0) (xs : List A) → ((a : A) → P a → Q a) → All P xs → All Q xs
All-mono P Q [] weaken h = tt
All-mono P Q (x ∷ xs) weaken h = (weaken x h.0, All-mono P Q xs weaken h.1)

keep-IsLightest :
    (w : ℤ) (l : List Task) (a : Task) (found : Found)
    → IsLightest w l found
    → (Divides w a → found.min_weight ≤ℤ a.weight)
    → IsLightest w (l ++ a ∷ []) found
keep-IsLightest w l a found is no_lighter = record {
  front = is.front;
  best = is.best;
  back = is.back ++ a ∷ [];
  whole = rw is.whole (append_assoc is.front (is.best ∷ is.back) (a ∷ []));
  pid_is = is.pid_is;
  weight_is = is.weight_is;
  divisor = is.divisor;
  heavier = is.heavier;
  no_lighter = All-append _ is.back (a ∷ []) (is.no_lighter, (no_lighter, tt));
}

take-IsLightest :
    (w : ℤ) (l : List Task) (a : Task) (found : Found)
    → IsLightest w l found
    → Divides w a
    → a.weight <ℤ found.min_weight
    → IsLightest w (l ++ a ∷ []) (record { min_weight = a.weight; min_pid = a.pid })
take-IsLightest w l a found is divisor lighter = record {
  front = l;
  best = a;
  back = [];
  whole = refl;
  pid_is = refl;
  weight_is = refl;
  divisor = divisor;
  heavier = subst (All (λ t. Divides w t → a.weight <ℤ t.weight)) (sym is.whole) (
      All-append _ is.front (is.best ∷ is.back) (
        All-mono _ _ is.front (λ t h d. omega (arith, h d)) is.heavier,
        (
          λ d. rw is.weight_is lighter,
          All-mono _ _ is.back (λ t h d. omega (arith, h d)) is.no_lighter,
        ),
      ));
  no_lighter = tt;
}

consider-IsLightest :
    (w : ℤ) (l : List Task) (a : Task) (found : Found)
    → IsLightest w l found
    → IsLightest w (l ++ a ∷ []) (consider w a found)
unfolding consider
consider-IsLightest w l a found is = elim (Bool-cases (a.weight ==ℤ pos 0)) [
  | inl zero_weight ↦ rw zero_weight (keep-IsLightest w l a found is (λ d. ground arith))
  | inr nonzero ↦ rw nonzero (elim (Bool-cases (rem_is_zero w a.weight)) [
    | inr other ↦ rw other (keep-IsLightest w l a found is (λ d. ground arith))
    | inl divides ↦ rw divides (elim (Bool-cases (ltb_ℤ a.weight found.min_weight)) [
      | inl lighter ↦ rw lighter (take-IsLightest w l a found is (nonzero, divides) (ground arith))
      | inr heavier ↦ rw heavier (keep-IsLightest w l a found is (λ d. ground arith))
    ])
  ])
]

ancestor_loop-IsLightest :
    (ts : Tasks) (w : ℤ) (p : TaskPtr) (l : List TaskPtr) (seen : List Task) (found : Found)
    (fuel : ℕ)
    → Ancestors ts p l
    → length l < fuel
    → IsLightest w seen found
    → (r : Found) × (ancestor_loop fuel ts w p found ≡ some r.min_pid)
      × IsLightest w (seen ++ map ts l) r
unfolding ancestor_loop
ancestor_loop-IsLightest ts w p l seen found zero up fuel_left is = absurd (omega arith)
ancestor_loop-IsLightest ts w p [] seen found (suc fuel) up fuel_left is =
    (found, rw up, rw append-nil is)
ancestor_loop-IsLightest ts w p (a ∷ l) seen found (suc fuel) up fuel_left is =
    let below : ((ts p).pid == 1) ≡ false = ground arith in
    let rest =
      ancestor_loop-IsLightest ts w a l (seen ++ ts a ∷ []) (consider w (ts a) found) fuel up.2
        (omega arith) (consider-IsLightest w seen (ts a) found is) in
    (rest.0, rw (below, up.1) rest.1, rw (← append_assoc seen (ts a ∷ []) (map ts l)) rest.2)

rem_self : (w : ℤ) → rem_is_zero w w ≡ true
rem_self w = rw mod_self

-- For init and for a task of weight 0 the call returns the caller's own pid, whatever its ancestors.
pub lightest_divisor_ancestor_self :
    (ts : Tasks) (current : TaskPtr) (fuel : ℕ)
    → ((ts current).pid ≡ 1) ⊎ ((ts current).weight ≡ pos 0)
    → sys_get_lightest_divisor_ancestor fuel current ts ≡ some (ts current).pid
unfolding sys_get_lightest_divisor_ancestor
lightest_divisor_ancestor_self ts current fuel (inl init) = ground arith
lightest_divisor_ancestor_self ts current fuel (inr light) = ground arith

-- For a task that is not init and whose weight is not 0, and with more fuel than it has ancestors, the
-- call ends and returns the pid of the lightest task of nonzero weight, among the caller and its
-- ancestors up to init, whose weight divides the caller's; of several such it returns the nearest.
pub lightest_divisor_ancestor_lem :
    (ts : Tasks) (current : TaskPtr) (l : List TaskPtr) (fuel : ℕ)
    → Ancestors ts current l
    → length l < fuel
    → (ts current).pid ≢ 1
    → (ts current).weight ≢ pos 0
    → (r : Found) × (sys_get_lightest_divisor_ancestor fuel current ts ≡ some r.min_pid)
      × IsLightest (ts current).weight (map ts (current ∷ l)) r
unfolding sys_get_lightest_divisor_ancestor
lightest_divisor_ancestor_lem ts current l fuel up fuel_left not_init heavy =
    let below : ((ts current).pid == 1) ≡ false = ground arith in
    let some_weight : ((ts current).weight ==ℤ pos 0) ≡ false =
      elim (Bool-cases ((ts current).weight ==ℤ pos 0)) [
        | inl light ↦ absurd (heavy ((==ℤ_iff _ _).0 light))
        | inr weighs ↦ weighs
      ] in
    rw (below, some_weight)
      (ancestor_loop-IsLightest ts (ts current).weight current l (ts current ∷ [])
        (record { min_weight = (ts current).weight; min_pid = (ts current).pid }) fuel up fuel_left
        (record {
          front = [];
          best = ts current;
          back = [];
          whole = refl;
          pid_is = refl;
          weight_is = refl;
          divisor = (some_weight, rem_self (ts current).weight);
          heavier = tt;
          no_lighter = tt;
        }))
