-- ===== src/Server/Runs.antt =====
-- All runs of OS_HW3_234123/server.c.
use os.Prelude.{ℕ, zero, suc, ◌+◌, ◌≤◌, ◌≡◌, ◌≢◌, refl, ap, sym, ◌∙◌, List, [], arith, length}
use os.Prelude.Int.{ℤ, pos}
use os.ReqQ.Fifo.{size}
use os.Server
use os.Server.{
  Server, Policy, Master, Worker, block, dh, dt, random, bf, other, accepting, block_wait, bf_wait,
  ready, handling, served, Step, Reach, here, next,
}
use os.Server.Counts.{count, fds, over, serving_of, engaged_of, waiting}
use os.Server.Invariant.{Inv, Step-Inv}
use os.Server.Config.{config, Step-config}

idle_length : (n : ℕ) → length (Server.replicate_ready n) ≡ n
unfolding Server.replicate_ready
idle_length zero = refl
idle_length (suc n) = ap suc (idle_length n)

idle_over : (f : Worker → List ℤ) → f ready ≡ [] → (n : ℕ) → over f (Server.replicate_ready n) ≡ []
unfolding Server.replicate_ready
idle_over f e zero = refl
idle_over f e (suc n) = rw (e, idle_over f e n)

start-Inv : (p : Policy) (max_threads max_tasks : ℕ) → Inv (Server.start p max_threads max_tasks)
unfolding Server.start
start-Inv p max_threads max_tasks = record {
  pending_limit = refl;
  busy_limit = ap pos (sym (idle_length max_threads));
  room = omega arith;
  busy_size = sym (ap length (idle_over engaged_of refl max_threads));
  busy_fds = λ c. sym (ap (count c) (idle_over engaged_of refl max_threads));
  conserved = λ c. omega (arith, ap (count c) (idle_over serving_of refl max_threads));
}

start-config :
    (p : Policy) (max_threads max_tasks : ℕ)
    → config (Server.start p max_threads max_tasks) ≡ (p, max_tasks)
unfolding Server.start
start-config p max_threads max_tasks = refl

Reach-Inv : {s t : Server} → s.policy ≢ other → Inv s → Reach s t → Inv t × (config t ≡ config s)
Reach-Inv known h here = (h, refl)
Reach-Inv known h (next r step) =
    let past = Reach-Inv known h r in
    (Step-Inv (λ e. known (sym (ap (λ k. k.0) past.1) ∙ e)) past.0 step, Step-config step ∙ past.1)

-- Whatever the threads do from the start, under each of the five policies: pending and served
-- requests together never exceed `max_tasks`, as many requests are busy as workers are engaged,
-- and every accepted connection is, exactly once, closed, pending, served, or held by the
-- accepting thread.
pub Reach-start :
    (p : Policy) (max_threads max_tasks : ℕ) (t : Server) (c : ℤ)
    → p ≢ other
    → Reach (Server.start p max_threads max_tasks) t
    → (size t.pending_reqs + size t.busy_threads ≤ max_tasks)
      × (size t.busy_threads ≡ length (over engaged_of t.workers))
      × (count c t.accepted
          ≡ count c t.closed
            + (count c (fds t.pending_reqs.items)
                + (count c (over serving_of t.workers) + count c (waiting t.master))))
Reach-start p max_threads max_tasks t c known r =
    let past =
      Reach-Inv (λ e. known (sym (ap (λ k. k.0) (start-config p max_threads max_tasks)) ∙ e))
        (start-Inv p max_threads max_tasks) r in
    let same : t.max_tasks ≡ max_tasks =
      ap (λ k. k.1) (past.1 ∙ start-config p max_threads max_tasks) in
    (omega (arith, past.0.room, same), past.0.busy_size, past.0.conserved c)
