-- ===== src/Server/Drain.antt =====
-- That a worker of OS_HW3_234123/server.c serves what is pending.
use os.Prelude.{ℕ, ◌≡◌, some, List, [], ◌∷◌, get_elem?, set}
use os.Prelude.Int.{ℤ}
use os.ReqQ.Heap.{Ptr}
use os.ReqQ.Links.{Entry}
use os.ReqQ.Spec.{pop_rest}
use os.ReqQ.Fifo.{insert}
use os.Server
use os.Server.{Server, ready, handling, Reach}

-- The connections that have been closed when these requests are served too, the last one first.
abbrev pub closed_after : List Entry → List ℤ → List ℤ
closed_after [] closed = closed
closed_after (e ∷ es) closed = closed_after es (e.fd ∷ closed)

-- What worker `i` can make of a state by itself.
pub record Drained (i : ℕ) (s : Server) (pending : List Entry) (closed : List ℤ) (t : Server)
    : Type 0 where
  pub run : Reach s t
  pub nothing_left : t.pending_reqs.items ≡ []
  pub all_closed : t.closed ≡ closed_after pending closed
  pub is_ready : get_elem? t.workers i ≡ some ready
  pub accepted_same : t.accepted ≡ s.accepted
  pub master_same : t.master ≡ s.master

-- The oldest request is taken.
abbrev taken : (i : ℕ) (now : Ptr) → Entry → Server → Server
taken i now e s = record s {
  pending_reqs = record (s.pending_reqs) { items = pop_rest s.pending_reqs.items };
  busy_threads = insert (record { fd = e.fd; time = now }) s.busy_threads;
  workers = set s.workers i (handling e.fd e.time);
}

module _ (i : ℕ) (now : Ptr) where
  -- The worker takes the oldest request, closes its connection and releases itself.
  round : Entry → Server → Server
  round e s = Server.release_thread i e.fd (Server.close_request i e.fd (taken i now e s))
