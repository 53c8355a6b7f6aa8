-- ===== src/Server/Sizes.antt =====
-- The invariant of OS_HW3_234123/server.c: its queues stay within their limits, the queue of busy
-- threads agrees with the workers, and no connection is lost, doubled or closed twice.
use os.Prelude.{◌+◌, ◌<◌, ◌≤◌, ◌≡◌, List, [], ◌∷◌, arith, length, length-append}
use os.Prelude.Int.{ℤ, pos}
use os.ReqQ.Heap.{Ptr}
use os.ReqQ.Links.{Entry}
use os.ReqQ.Fifo.{size}
use os.Server
use os.Server.{Server}
use os.Server.Counts.{count, fds, over, serving_of, engaged_of, insert-room, count-fds-snoc}

-- `extra` are the connections that the accepting thread holds.
pub record Holding (extra : List ℤ) (s : Server) : Type 0 where
  pub pending_limit : s.pending_reqs.limit ≡ pos s.max_tasks
  pub busy_limit : s.busy_threads.limit ≡ pos (length s.workers)
  pub room : size s.pending_reqs + size s.busy_threads ≤ s.max_tasks
  pub busy_size : size s.busy_threads ≡ length (over engaged_of s.workers)
  pub busy_fds : (c : ℤ) → count c (fds s.busy_threads.items) ≡ count c (over engaged_of s.workers)
  pub conserved :
      (c : ℤ)
      → count c s.accepted
        ≡ count c s.closed
          + (count c (fds s.pending_reqs.items)
              + (count c (over serving_of s.workers) + count c extra))

pub enqueue-Holding :
    (connfd : ℤ) (time : Ptr) (s : Server)
    → size s.pending_reqs + size s.busy_threads < s.max_tasks
    → Holding (connfd ∷ []) s
    → Holding [] (Server.enqueue connfd time s)
unfolding Server.enqueue
enqueue-Holding connfd time s lt h =
    let e : Entry = record { fd = connfd; time = time } in
    rw (insert-room e s.pending_reqs s.max_tasks h.pending_limit (omega arith)) (record {
      pending_limit = h.pending_limit;
      busy_limit = h.busy_limit;
      room = omega (arith, length-append s.pending_reqs.items (e ∷ []));
      busy_size = h.busy_size;
      busy_fds = h.busy_fds;
      conserved = λ c. omega (arith, h.conserved c, count-fds-snoc c s.pending_reqs.items e);
    })

pub reject-Holding :
    (connfd : ℤ) (s : Server) → Holding (connfd ∷ []) s → Holding [] (Server.reject connfd s)
unfolding Server.reject
reject-Holding connfd s h = record {
  pending_limit = h.pending_limit;
  busy_limit = h.busy_limit;
  room = h.room;
  busy_size = h.busy_size;
  busy_fds = h.busy_fds;
  conserved = λ c. omega (arith, h.conserved c);
}
