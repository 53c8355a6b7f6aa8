-- ===== src/Server.antt =====
-- The server of OS_HW3_234123/server.c: the thread of `main` that accepts connections, and the
-- worker threads of `handle_reqs`. A critical section, from taking the mutex to giving it back or
-- to waiting, is one step. The queues are used through the contract of reqQ.c.
pub mod Counts
pub mod Sizes
pub mod Overload
pub mod Invariant
pub mod Config
pub mod Runs
pub mod Drain
pub mod Effects
mod Examples
use os.Prelude.{
  ℕ, zero, suc, ◌+◌, ◌/◌, ◌%◌, ◌≡◌, Bool, not, ◌&&◌, none, some, List, [], ◌∷◌, leb, ◌==◌,
  if◌then◌else◌, get_elem?, set,
}
use os.Prelude.Int.{ℤ, pos}
use os.ReqQ.Heap.{Ptr}
use os.ReqQ.Fifo.{Fifo, size, insert, remove_first, remove, find}

-- The overload policy, by the string it is compared with; `other` is any further string.
pub data Policy : Type 0 where
  block dh dt random bf other : Policy

-- Where the accepting thread stands: at `Accept`, or in one of the two waiting loops with a
-- connection that it has accepted.
pub data Master : Type 0 where
  accepting : Master
  block_wait : (connfd : ℤ) (time : Ptr) → Master
  bf_wait : (connfd : ℤ) → Master

-- Where a worker stands: at its wait for a request, outside the lock with one, or outside the lock
-- with one that it has served and closed.
pub data Worker : Type 0 where
  ready : Worker
  handling : (fd : ℤ) (arrival : Ptr) → Worker
  served : (fd : ℤ) → Worker

pub record Server : Type 0 where
  pub policy : Policy
  pub max_tasks : ℕ
  pub pending_reqs : Fifo
  pub busy_threads : Fifo
  pub master : Master
  pub workers : List Worker
  -- The connections that were accepted and those that were closed, newest first.
  pub accepted : List ℤ
  pub closed : List ℤ

unfoldable pub replicate_ready : ℕ → List Worker
replicate_ready zero = []
replicate_ready (suc n) = ready ∷ replicate_ready n

-- The state in which `main` enters its loop.
unfoldable pub start : Policy → (max_threads max_tasks : ℕ) → Server
start policy max_threads max_tasks = record {
  policy = policy;
  max_tasks = max_tasks;
  pending_reqs = record { limit = pos max_tasks; items = [] };
  busy_threads = record { limit = pos max_threads; items = [] };
  master = accepting;
  workers = replicate_ready max_threads;
  accepted = [];
  closed = [];
}

-- `getQsize(pending_reqs) + getQsize(busy_threads) >= max_tasks`
abbrev pub is_overloaded : Server → Bool
is_overloaded s = leb s.max_tasks (size s.pending_reqs + size s.busy_threads)

abbrev pub close : ℤ → Server → Server
close fd s = record s { closed = fd ∷ s.closed }

-- The end of the loop's body: the request is queued.
unfoldable pub enqueue : ℤ → Ptr → Server → Server
enqueue connfd time s = record s {
  pending_reqs = insert (record { fd = connfd; time = time }) s.pending_reqs;
  master = accepting;
}

-- A connection that is closed at once; the loop goes on with the next.
unfoldable pub reject : ℤ → Server → Server
reject connfd s = record s { closed = connfd ∷ s.closed; master = accepting }

-- Policy `dh`: the oldest request gives way.
unfoldable pub drop_head : ℤ → Ptr → Server → Server
drop_head connfd time s =
    if size s.pending_reqs == 0
    then reject connfd s
    else let (fd, pending) = remove_first s.pending_reqs in
      enqueue connfd time (close fd (record s { pending_reqs = pending }))

-- Policy `random`: the rounds of its loop, with what `rand` returns in each.
unfoldable pub drop_loop : ℕ → (rand : ℕ → ℕ) → Server → Server
drop_loop zero rand s = s
drop_loop (suc n) rand s =
    let (fd, pending) = remove (pos (rand n % size s.pending_reqs)) s.pending_reqs in
    let rest = drop_loop n rand (close fd (record s { pending_reqs = pending })) in
    if size s.pending_reqs == 0 then s else rest

-- `ceil(size * 0.5)` requests are dropped.
unfoldable pub drop_random : ℤ → Ptr → (rand : ℕ → ℕ) → Server → Server
drop_random connfd time rand s =
    if size s.pending_reqs == 0
    then reject connfd s
    else enqueue connfd time (drop_loop ((size s.pending_reqs + 1) / 2) rand s)

-- The test of the waiting loop of policy `bf`, and what follows it.
unfoldable pub flush_wait : ℤ → Server → Server
flush_wait connfd s =
    if is_overloaded s && not (size s.busy_threads == 0)
    then record s { master = bf_wait connfd }
    else reject connfd s

-- The test of the waiting loop of policy `block`, and what follows it.
unfoldable pub block_until_room : ℤ → Ptr → Server → Server
block_until_room connfd time s =
    if is_overloaded s then record s { master = block_wait connfd time } else enqueue connfd time s

unfoldable pub overload : Policy → ℤ → Ptr → (rand : ℕ → ℕ) → Server → Server
overload block connfd time rand s = block_until_room connfd time s
overload dh connfd time rand s = drop_head connfd time s
overload dt connfd time rand s = reject connfd s
overload random connfd time rand s = drop_random connfd time rand s
overload bf connfd time rand s = flush_wait connfd s
overload other connfd time rand s = enqueue connfd time s

-- The body of the loop of `main` for one connection, up to its end or its first wait.
unfoldable pub accept : ℤ → Ptr → (rand : ℕ → ℕ) → Server → Server
accept connfd time rand s =
    let s' = record s { accepted = connfd ∷ s.accepted } in
    if is_overloaded s then overload s.policy connfd time rand s' else enqueue connfd time s'

-- A waiting `main` is woken: it tests its loop's condition again.
unfoldable pub wake : Master → Server → Server
wake accepting s = s
wake (block_wait connfd time) s = block_until_room connfd time s
wake (bf_wait connfd) s = flush_wait connfd s

-- The first critical section of a worker: it waits while nothing is pending, else takes the oldest
-- request. `now` is the time that it notes.
unfoldable pub take_request : (i : ℕ) (now : Ptr) → Server → Server
take_request i now s = elim (get_elem? s.pending_reqs.items 0) [
  | none ↦ s
  | some e ↦
      let (fd, pending) = remove_first s.pending_reqs in
      record s {
        pending_reqs = pending;
        busy_threads = insert (record { fd = fd; time = now }) s.busy_threads;
        workers = set s.workers i (handling fd e.time);
      }
]

-- The request was served: `close(fd)`, outside the lock.
unfoldable pub close_request : (i : ℕ) (fd : ℤ) → Server → Server
close_request i fd s = record s { closed = fd ∷ s.closed; workers = set s.workers i (served fd) }

-- The second critical section of a worker.
unfoldable pub release_thread : (i : ℕ) (fd : ℤ) → Server → Server
release_thread i fd s = record s {
  busy_threads = (remove (find fd s.busy_threads) s.busy_threads).1;
  workers = set s.workers i ready;
}

-- One step of one thread.
pub data Step (s : Server) : Server → Type 0 where
  accepts :
      (connfd : ℤ) (time : Ptr) (rand : ℕ → ℕ)
      → s.master ≡ accepting
      → Step s (accept connfd time rand s)
  wakes : Step s (wake s.master s)
  takes : (i : ℕ) (now : Ptr) → get_elem? s.workers i ≡ some ready → Step s (take_request i now s)
  closes :
      (i : ℕ) (fd : ℤ) (arrival : Ptr)
      → get_elem? s.workers i ≡ some (handling fd arrival)
      → Step s (close_request i fd s)
  releases :
      (i : ℕ) (fd : ℤ) → get_elem? s.workers i ≡ some (served fd) → Step s (release_thread i fd s)

pub data Reach (s : Server) : Server → Type 0 where
  here : Reach s s
  next : {t u : Server} → Reach s t → Step t u → Reach s u
