-- ===== src/Server/Invariant.antt =====
-- Every step of every thread of OS_HW3_234123/server.c keeps the invariant.
use os.Prelude.{
  ℕ, suc, ◌+◌, ◌<◌, ◌≡◌, ◌≢◌, refl, ap, sym, subst, ◌∙◌, none, some, List, [], ◌∷◌, arith, ◌==◌,
  ◌&&◌, not, length, length-append, get_elem?, set, Bool-cases, inl, inr,
}
use os.Prelude.Int.{ℤ, pos}
use os.ReqQ.Heap.{Ptr}
use os.ReqQ.Links.{Entry}
use os.ReqQ.Spec.{pop_rest}
use os.ReqQ.Fifo.{Fifo, size, remove_first}
use os.Server
use os.Server.{
  Server, Policy, Master, Worker, block, dh, dt, random, bf, other, accepting, block_wait, bf_wait,
  ready, handling, served, Step, Reach, here, next,
}
use os.Server.Counts.{
  one, count, fds, serving_of, engaged_of, waiting, insert-room, count-fds-snoc, count-over-set,
  length-over-set, length-engaged, length-set, count-le-over, remove-find, count-erase_fd,
  length-erase_fd, one_self, one_self,
}
use os.Server.Sizes.{Holding, enqueue-Holding, reject-Holding}
use os.Server.Overload.{drop_head-Holding, drop_random-Holding}

abbrev pub Inv : Server → Type 0
Inv s = Holding (waiting s.master) s

-- The same lists, whatever `master` is.
re-master : (m : Master) (s : Server) → Holding (waiting m) s → Inv (record s { master = m })
re-master m s h = record {
  pending_limit = h.pending_limit;
  busy_limit = h.busy_limit;
  room = h.room;
  busy_size = h.busy_size;
  busy_fds = h.busy_fds;
  conserved = h.conserved;
}

Inv-of : (m : Master) (t : Server) → t.master ≡ m → Holding (waiting m) t → Inv t
Inv-of m t e h = subst (λ n. Holding (waiting n) t) (sym e) h

enqueue-Inv :
    (connfd : ℤ) (time : Ptr) (s : Server)
    → size s.pending_reqs + size s.busy_threads < s.max_tasks
    → Holding (connfd ∷ []) s
    → Inv (Server.enqueue connfd time s)
enqueue-Inv connfd time s lt h =
    Inv-of accepting _ (unfold Server.enqueue in refl) (enqueue-Holding connfd time s lt h)

reject-Inv : (connfd : ℤ) (s : Server) → Holding (connfd ∷ []) s → Inv (Server.reject connfd s)
reject-Inv connfd s h =
    Inv-of accepting _ (unfold Server.reject in refl) (reject-Holding connfd s h)

block_until_room-Inv :
    (connfd : ℤ) (time : Ptr) (s : Server)
    → Holding (connfd ∷ []) s
    → Inv (Server.block_until_room connfd time s)
unfolding Server.block_until_room
block_until_room-Inv connfd time s h = elim (Bool-cases (Server.is_overloaded s)) [
  | inl full ↦ rw full (re-master (block_wait connfd time) s h)
  | inr room ↦ rw room (enqueue-Inv connfd time s (ground arith) h)
]

flush_wait-Inv :
    (connfd : ℤ) (s : Server) → Holding (connfd ∷ []) s → Inv (Server.flush_wait connfd s)
unfolding Server.flush_wait
flush_wait-Inv connfd s h =
    elim (Bool-cases (Server.is_overloaded s && not (size s.busy_threads == 0))) [
      | inl wait ↦ rw wait (re-master (bf_wait connfd) s h)
      | inr done ↦ rw done (reject-Inv connfd s h)
    ]

wake-Inv : (s : Server) (m : Master) → Holding (waiting m) s → s.master ≡ m → Inv (Server.wake m s)
unfolding Server.wake
wake-Inv s accepting h e = Inv-of accepting s e h
wake-Inv s (block_wait connfd time) h e = block_until_room-Inv connfd time s h
wake-Inv s (bf_wait connfd) h e = flush_wait-Inv connfd s h

pub remove_first-some :
    (f : Fifo) (e : Entry)
    → get_elem? f.items 0 ≡ some e
    → remove_first f ≡ (e.fd, record f { items = pop_rest f.items })
unfolding remove_first
remove_first-some f e h = rw h

take-Holding :
    {extra : List ℤ} (i : ℕ) (now : Ptr) (s : Server) (es : List Entry)
    → get_elem? s.workers i ≡ some ready
    → s.pending_reqs.items ≡ es
    → Holding extra s
    → Holding extra (Server.take_request i now s)
unfolding Server.take_request
take-Holding i now s [] at items h =
    let none_first : get_elem? s.pending_reqs.items 0 ≡ none = ap (λ t. get_elem? t 0) items in
    rw (none_first, Server.take_request) h
take-Holding i now s (e ∷ es) at items h =
    let first : get_elem? s.pending_reqs.items 0 ≡ some e = ap (λ t. get_elem? t 0) items in
    let w = handling e.fd e.time in
    let entry : Entry = record { fd = e.fd; time = now } in
    let engaged = length-over-set engaged_of s.workers i _ w at in
    let space : size s.busy_threads < length s.workers =
      omega (
        arith,
        h.busy_size,
        engaged,
        length-engaged (set s.workers i w),
        length-set s.workers i w,
      ) in
    let shorter : length s.pending_reqs.items ≡ suc (length (pop_rest s.pending_reqs.items)) =
      rw items in
    let fewer : (c : ℤ)
        → count c (fds s.pending_reqs.items)
          ≡ one c e.fd + count c (fds (pop_rest s.pending_reqs.items)) =
      λ c. rw items in
    rw
      (
        first,
        Server.take_request,
        remove_first-some s.pending_reqs e first,
        insert-room entry s.busy_threads _ h.busy_limit space,
      )
      (record {
        pending_limit = h.pending_limit;
        busy_limit = h.busy_limit ∙ ap pos (sym (length-set s.workers i w));
        room = omega (arith, h.room, shorter, length-append s.busy_threads.items (entry ∷ []));
        busy_size =
            omega (arith, h.busy_size, engaged, length-append s.busy_threads.items (entry ∷ []));
        busy_fds = λ c. omega (
          arith,
          h.busy_fds c,
          count-over-set engaged_of c s.workers i _ w at,
          count-fds-snoc c s.busy_threads.items entry,
        );
        conserved = λ c.
            omega (arith, h.conserved c, fewer c, count-over-set serving_of c s.workers i _ w at);
      })

take_request-master :
    (i : ℕ) (now : Ptr) (s : Server) → (Server.take_request i now s).master ≡ s.master
unfolding Server.take_request
take_request-master i now s = ground arith

close-Holding :
    {extra : List ℤ} (i : ℕ) (fd : ℤ) (arrival : Ptr) (s : Server)
    → get_elem? s.workers i ≡ some (handling fd arrival)
    → Holding extra s
    → Holding extra (Server.close_request i fd s)
unfolding Server.close_request
close-Holding i fd arrival s at h =
    let w = served fd in
    record {
      pending_limit = h.pending_limit;
      busy_limit = h.busy_limit ∙ ap pos (sym (length-set s.workers i w));
      room = h.room;
      busy_size = omega (arith, h.busy_size, length-over-set engaged_of s.workers i _ w at);
      busy_fds = λ c. omega (arith, h.busy_fds c, count-over-set engaged_of c s.workers i _ w at);
      conserved = λ c. omega (arith, h.conserved c, count-over-set serving_of c s.workers i _ w at);
    }

release-Holding :
    {extra : List ℤ} (i : ℕ) (fd : ℤ) (s : Server)
    → get_elem? s.workers i ≡ some (served fd)
    → Holding extra s
    → Holding extra (Server.release_thread i fd s)
unfolding Server.release_thread
release-Holding i fd s at h =
    let there : 0 < count fd (fds s.busy_threads.items) =
      omega (arith, h.busy_fds fd, count-le-over engaged_of fd s.workers i _ at, one_self fd) in
    rw (remove-find fd s.busy_threads) (record {
      pending_limit = h.pending_limit;
      busy_limit = h.busy_limit ∙ ap pos (sym (length-set s.workers i ready));
      room = omega (arith, h.room, length-erase_fd fd s.busy_threads.items there);
      busy_size = omega (
        arith,
        h.busy_size,
        length-over-set engaged_of s.workers i _ ready at,
        length-erase_fd fd s.busy_threads.items there,
      );
      busy_fds = λ c. omega (
        arith,
        h.busy_fds c,
        count-over-set engaged_of c s.workers i _ ready at,
        count-erase_fd c fd s.busy_threads.items there,
      );
      conserved =
          λ c. omega (arith, h.conserved c, count-over-set serving_of c s.workers i _ ready at);
    })

pub accepted-Holding :
    (connfd : ℤ) (s : Server)
    → s.master ≡ accepting
    → Inv s
    → Holding (connfd ∷ []) (record s { accepted = connfd ∷ s.accepted })
accepted-Holding connfd s idle h = record {
  pending_limit = h.pending_limit;
  busy_limit = h.busy_limit;
  room = h.room;
  busy_size = h.busy_size;
  busy_fds = h.busy_fds;
  conserved = λ c.
      let none_held : count c (waiting s.master) ≡ 0 = rw idle in
      omega (arith, h.conserved c, none_held);
}

drop_head-master :
    (connfd : ℤ) (time : Ptr) (s : Server) → (Server.drop_head connfd time s).master ≡ accepting
unfolding Server.drop_head Server.enqueue Server.reject
drop_head-master connfd time s = ground arith

pub drop_random-master :
    (connfd : ℤ) (time : Ptr) (rand : ℕ → ℕ) (s : Server)
    → (Server.drop_random connfd time rand s).master ≡ accepting
unfolding Server.drop_random Server.enqueue Server.reject
drop_random-master connfd time rand s = ground arith

overload-Inv :
    (p : Policy) (connfd : ℤ) (time : Ptr) (rand : ℕ → ℕ) (s : Server)
    → p ≢ other
    → Holding (connfd ∷ []) s
    → Inv (Server.overload p connfd time rand s)
unfolding Server.overload
overload-Inv block connfd time rand s known h = block_until_room-Inv connfd time s h
overload-Inv dh connfd time rand s known h =
    Inv-of accepting _ (drop_head-master connfd time s) (drop_head-Holding connfd time s h)
overload-Inv dt connfd time rand s known h = reject-Inv connfd s h
overload-Inv random connfd time rand s known h =
    Inv-of accepting _ (drop_random-master connfd time rand s)
      (drop_random-Holding connfd time rand s h)
overload-Inv bf connfd time rand s known h = flush_wait-Inv connfd s h
overload-Inv other connfd time rand s known h = absurd (known refl)

accept-Inv :
    (connfd : ℤ) (time : Ptr) (rand : ℕ → ℕ) (s : Server)
    → s.policy ≢ other
    → s.master ≡ accepting
    → Inv s
    → Inv (Server.accept connfd time rand s)
unfolding Server.accept
accept-Inv connfd time rand s known idle h = elim (Bool-cases (Server.is_overloaded s)) [
  | inl full ↦
      rw full (overload-Inv s.policy connfd time rand _ known (accepted-Holding connfd s idle h))
  | inr room ↦ rw room (enqueue-Inv connfd time _ (ground arith) (accepted-Holding connfd s idle h))
]

-- Every step of any thread keeps the invariant, under each of the five policies.
pub Step-Inv : {s t : Server} → s.policy ≢ other → Inv s → Step s t → Inv t
Step-Inv {s} known h (Step.accepts connfd time rand idle) =
    accept-Inv connfd time rand s known idle h
Step-Inv {s} known h Step.wakes = wake-Inv s s.master h refl
Step-Inv {s} known h (Step.takes i now at) =
    Inv-of s.master _ (take_request-master i now s) (take-Holding i now s _ at refl h)
Step-Inv {s} known h (Step.closes i fd arrival at) =
    Inv-of s.master _ (unfold Server.close_request in refl) (close-Holding i fd arrival s at h)
Step-Inv {s} known h (Step.releases i fd at) =
    Inv-of s.master _ (unfold Server.release_thread in refl) (release-Holding i fd s at h)
