-- ===== src/Server/Examples.antt =====
-- The threads of OS_HW3_234123/server.c at small inputs.
use os.Prelude.{ℕ, ◌+◌, ◌≤◌, ◌≡◌, refl, [], ◌∷◌, arith, length}
use os.Prelude.Int.{pos}
use os.ReqQ.Fifo.{size}
use os.Server
use os.Server.{
  Server, Policy, Worker, block, dh, dt, random, bf, other, ready, handling, accepting, Step, Reach,
  here, next,
}
use os.Server.Counts.{count, fds, over, serving_of, engaged_of, waiting}
use os.Server.Sizes.{Holding}
use os.Server.Runs.{Reach-start}

abbrev no_rand : ℕ → ℕ
no_rand n = 0

-- One worker serves connection 4; connections 5 and 6 are pending; the limit is 3.
abbrev busy_server : Server
busy_server = record {
  policy = dh;
  max_tasks = 3;
  pending_reqs = record {
    limit = pos 3;
    items = record { fd = pos 5; time = 2 } ∷ record { fd = pos 6; time = 3 } ∷ [];
  };
  busy_threads = record { limit = pos 1; items = record { fd = pos 4; time = 9 } ∷ [] };
  master = accepting;
  workers = handling (pos 4) 1 ∷ [];
  accepted = pos 6 ∷ pos 5 ∷ pos 4 ∷ [];
  closed = [];
}

-- The worker has released connection 4, and is ready.
abbrev idle_server : Server
idle_server = record busy_server {
  busy_threads = record { items = []; limit = pos 1 };
  workers = ready ∷ [];
  closed = pos 4 ∷ [];
}

-- The new connection 7 has been accepted, and the thread holds it.
abbrev holding_server : Server
holding_server = record busy_server { accepted = pos 7 ∷ pos 6 ∷ pos 5 ∷ pos 4 ∷ [] }

holding_server-Holding : Holding (pos 7 ∷ []) holding_server
holding_server-Holding = record {
  pending_limit = refl;
  busy_limit = refl;
  room = omega arith;
  busy_size = refl;
  busy_fds = λ c. refl;
  conserved = λ c. omega arith;
}

-- A connection is accepted and a worker takes it.
abbrev after_accept : Server
after_accept = Server.accept (pos 4) 1 no_rand (Server.start dt 1 2)

one_run : Reach (Server.start dt 1 2) (Server.take_request 0 9 after_accept)
unfolding Server.start Server.accept Server.enqueue Server.replicate_ready
one_run = next (next here (Step.accepts (pos 4) 1 no_rand refl)) (Step.takes 0 9 refl)

Reach-start_example :
    let t = Server.take_request 0 9 after_accept in
    (size t.pending_reqs + size t.busy_threads ≤ 2)
    × (size t.busy_threads ≡ length (over engaged_of t.workers))
    × (count (pos 4) t.accepted
        ≡ count (pos 4) t.closed
          + (count (pos 4) (fds t.pending_reqs.items)
              + (count (pos 4) (over serving_of t.workers) + count (pos 4) (waiting t.master))))
Reach-start_example = Reach-start dt 1 2 _ (pos 4) (λ e. cc) one_run
