-- ===== src/Server/Overload.antt =====
-- The overload policies of OS_HW3_234123/server.c keep the invariant, and random dropping halves
-- the queue.
use os.Prelude.{
  ℕ, zero, suc, ◌+◌, ◌/◌, ◌%◌, ◌<◌, ◌≤◌, ◌≡◌, refl, ◌∙◌, sym, false, List, [], ◌∷◌, ◌++◌, arith,
  length, length-append, append_assoc, ◌==◌, get_elem?, erase_idx, length-erase_idx, Bool-cases,
  inl, inr,
}
use os.Prelude.Int.{ℤ}
use os.ReqQ.Heap.{Ptr}
use os.ReqQ.Links.{Entry}
use os.ReqQ.Spec.{pop_rest, fd_of}
use os.ReqQ.Fifo.{Fifo, size, remove_first, remove}
use os.Server
use os.Server.{Server, Policy, block, dh, dt, random, bf, other}
use os.Server.Counts.{count, fds, count-append, insert-room, count-erase_idx}
use os.Server.Sizes.{Holding, enqueue-Holding, reject-Holding}

abbrev dropped : (i : ℕ) → Server → Server
dropped i s = Server.close (fd_of (get_elem? s.pending_reqs.items i)) (record s {
  pending_reqs = record (s.pending_reqs) { items = erase_idx s.pending_reqs.items i };
})

dropped-Holding :
    {extra : List ℤ} (i : ℕ) (s : Server)
    → i < size s.pending_reqs
    → Holding extra s
    → Holding extra (dropped i s)
dropped-Holding i s lt h = record {
  pending_limit = h.pending_limit;
  busy_limit = h.busy_limit;
  room = omega (arith, h.room, length-erase_idx s.pending_reqs.items i lt);
  busy_size = h.busy_size;
  busy_fds = h.busy_fds;
  conserved = λ c. omega (arith, h.conserved c, count-erase_idx c s.pending_reqs.items i lt);
}

remove_first-dropped :
    (f : Fifo)
    → remove_first f ≡ (fd_of (get_elem? f.items 0), record f { items = erase_idx f.items 0 })
unfolding remove_first
remove_first-dropped f = rw (pop f.items)
  where
    pop : (es : List Entry) → pop_rest es ≡ erase_idx es 0
    pop [] = refl
    pop (e ∷ es) = refl

pub drop_head-Holding :
    (connfd : ℤ) (time : Ptr) (s : Server)
    → Holding (connfd ∷ []) s
    → Holding [] (Server.drop_head connfd time s)
unfolding Server.drop_head
drop_head-Holding connfd time s h = elim (Bool-cases (size s.pending_reqs == 0)) [
  | inl empty ↦ rw empty (reject-Holding connfd s h)
  | inr more ↦
      let lt : 0 < size s.pending_reqs = ground arith in
      rw (more, remove_first-dropped s.pending_reqs)
        (enqueue-Holding connfd time (dropped 0 s)
          (omega (arith, h.room, length-erase_idx s.pending_reqs.items 0 lt))
          (dropped-Holding 0 s lt h))
]

-- What the rounds of policy `random` leave.
pub record Halved (extra : List ℤ) (n : ℕ) (s t : Server) : Type 0 where
  pub holding : Holding extra t
  pub fewer : size t.pending_reqs + n ≡ size s.pending_reqs
  pub same_busy : size t.busy_threads ≡ size s.busy_threads
  pub same_max : t.max_tasks ≡ s.max_tasks
  pub gone : List ℤ
  pub all_closed : t.closed ≡ gone ++ s.closed
  pub amount : length gone ≡ n
  pub split :
      (c : ℤ)
      → count c (fds s.pending_reqs.items) ≡ count c gone + count c (fds t.pending_reqs.items)

pub drop_loop-Halved :
    {extra : List ℤ} (n : ℕ) (rand : ℕ → ℕ) (s : Server)
    → n ≤ size s.pending_reqs
    → Holding extra s
    → Halved extra n s (Server.drop_loop n rand s)
unfolding Server.drop_loop remove
drop_loop-Halved zero rand s le h = record {
  holding = h;
  fewer = omega arith;
  same_busy = refl;
  same_max = refl;
  gone = [];
  all_closed = refl;
  amount = refl;
  split = λ c. omega arith;
}
drop_loop-Halved (suc n) rand s le h =
    let more : (size s.pending_reqs == 0) ≡ false = ground arith in
    let i = rand n % size s.pending_reqs in
    let lt : i < size s.pending_reqs = grind arith in
    let fd = fd_of (get_elem? s.pending_reqs.items i) in
    let rest =
      drop_loop-Halved n rand (dropped i s)
        (omega (arith, length-erase_idx s.pending_reqs.items i lt)) (dropped-Holding i s lt h) in
    rw more (record {
      holding = rest.holding;
      fewer = omega (arith, rest.fewer, length-erase_idx s.pending_reqs.items i lt);
      same_busy = rest.same_busy;
      same_max = rest.same_max;
      gone = rest.gone ++ fd ∷ [];
      all_closed = rest.all_closed ∙ sym (append_assoc rest.gone (fd ∷ []) s.closed);
      amount = omega (arith, length-append rest.gone (fd ∷ []), rest.amount);
      split = λ c. omega (
        arith,
        rest.split c,
        count-append c rest.gone (fd ∷ []),
        count-erase_idx c s.pending_reqs.items i lt,
      );
    })

pub drop_random-Holding :
    (connfd : ℤ) (time : Ptr) (rand : ℕ → ℕ) (s : Server)
    → Holding (connfd ∷ []) s
    → Holding [] (Server.drop_random connfd time rand s)
unfolding Server.drop_random
drop_random-Holding connfd time rand s h = elim (Bool-cases (size s.pending_reqs == 0)) [
  | inl empty ↦ rw empty (reject-Holding connfd s h)
  | inr more ↦
      let halved = drop_loop-Halved ((size s.pending_reqs + 1) / 2) rand s (omega arith) h in
      rw more (
        enqueue-Holding connfd time _
          (ground (arith, halved.fewer, halved.same_busy, halved.same_max, h.room)) halved.holding)
]

-- Policy `random` has closed the descriptors `gone` of requests that were `pending`, and queued `new`
-- behind those that are left.
pub record IsHalved (new : Entry) (pending : List Entry) (closed : List ℤ) (t : Server)
    : Type 0 where
  pub gone : List ℤ
  pub left : List Entry
  pub all_closed : t.closed ≡ gone ++ closed
  pub queued : t.pending_reqs.items ≡ left ++ new ∷ []
  pub gone_half : length gone ≡ (length pending + 1) / 2
  pub left_half : length left ≡ length pending / 2
  pub split : (c : ℤ) → count c (fds pending) ≡ count c gone + count c (fds left)

pub drop_random-IsHalved :
    (connfd : ℤ) (time : Ptr) (rand : ℕ → ℕ) (s : Server)
    → 0 < size s.pending_reqs
    → Holding (connfd ∷ []) s
    → IsHalved
        (record { fd = connfd; time = time })
        s.pending_reqs.items
        s.closed
        (Server.drop_random connfd time rand s)
unfolding Server.drop_random Server.enqueue
drop_random-IsHalved connfd time rand s lt h =
    let more : (size s.pending_reqs == 0) ≡ false = ground arith in
    let half = (size s.pending_reqs + 1) / 2 in
    let t = Server.drop_loop half rand s in
    let halved = drop_loop-Halved half rand s (omega arith) h in
    rw
      (
        more,
        insert-room (record { fd = connfd; time = time }) t.pending_reqs t.max_tasks
            halved.holding.pending_limit
            (ground (arith, halved.fewer, halved.same_busy, halved.same_max, h.room)),
      )
      (record {
        gone = halved.gone;
        left = t.pending_reqs.items;
        all_closed = halved.all_closed;
        queued = refl;
        gone_half = halved.amount;
        left_half = omega (arith, halved.fewer);
        split = halved.split;
      })
