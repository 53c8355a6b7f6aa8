-- ===== src/Server/Effects.antt =====
-- What OS_HW3_234123/server.c does with a connection that arrives while it is overloaded.
use os.Prelude.{◌≡◌, List, [], ◌∷◌, ◌++◌, ◌==◌, if◌then◌else◌}
use os.Prelude.Int.{ℤ}
use os.ReqQ.Heap.{Ptr}
use os.ReqQ.Links.{Entry}
use os.ReqQ.Fifo.{size}
use os.Server
use os.Server.{
  Server, Policy, Master, block, dh, dt, random, bf, other, accepting, block_wait, bf_wait,
}
use os.Server.Overload.{IsHalved}

-- The connection is closed at once.
abbrev pub Rejected : ℤ → Server → Server → Type 0
Rejected connfd s t =
    (t.master ≡ accepting) × (t.closed ≡ connfd ∷ s.closed) × (t.pending_reqs ≡ s.pending_reqs)

-- The accepting thread waits with the connection.
abbrev pub Waits : Master → Server → Server → Type 0
Waits m s t = (t.master ≡ m) × (t.closed ≡ s.closed) × (t.pending_reqs ≡ s.pending_reqs)

-- The oldest request is closed and the connection queued last.
abbrev pub Replaces : Entry → List Entry → Server → Server → Type 0
Replaces new [] s t = Rejected new.fd s t
Replaces new (e ∷ es) s t =
    (t.master ≡ accepting) × (t.closed ≡ e.fd ∷ s.closed) × (t.pending_reqs.items ≡ es ++ new ∷ [])

-- What each policy asks for.
abbrev pub Effect : Policy → ℤ → Ptr → Server → Server → Type 0
Effect block connfd time s t = Waits (block_wait connfd time) s t
Effect dt connfd time s t = Rejected connfd s t
Effect dh connfd time s t = Replaces (record { fd = connfd; time = time }) s.pending_reqs.items s t
Effect random connfd time s t =
    if size s.pending_reqs == 0
    then Rejected connfd s t
    else (t.master ≡ accepting)
      × IsHalved (record { fd = connfd; time = time }) s.pending_reqs.items s.closed t
Effect bf connfd time s t =
    if size s.busy_threads == 0 then Rejected connfd s t else Waits (bf_wait connfd) s t
Effect other connfd time s t = Unit
