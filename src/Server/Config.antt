-- ===== src/Server/Config.antt =====
-- The policy and the limit of OS_HW3_234123/server.c never change.
use os.Prelude.{ℕ, zero, suc, ◌+◌, ◌/◌, ◌≡◌, refl, ◌∷◌, arith, ◌==◌, Bool-cases, inl, inr}
use os.Prelude.Int.{ℤ}
use os.ReqQ.Heap.{Ptr}
use os.ReqQ.Fifo.{size}
use os.Server
use os.Server.{
  Server, Policy, Master, Worker, block, dh, dt, random, bf, other, accepting, block_wait, bf_wait,
  ready, handling, served, Step, Reach, here, next,
}

abbrev pub config : Server → Policy × ℕ
config s = (s.policy, s.max_tasks)

wake-config : (m : Master) (s : Server) → config (Server.wake m s) ≡ config s
unfolding Server.wake Server.block_until_room Server.flush_wait Server.enqueue Server.reject
wake-config accepting s = refl
wake-config (block_wait connfd time) s = ground arith
wake-config (bf_wait connfd) s = ground arith

drop_loop-config :
    (n : ℕ) (rand : ℕ → ℕ) (s : Server) → config (Server.drop_loop n rand s) ≡ config s
unfolding Server.drop_loop
drop_loop-config zero rand s = refl
drop_loop-config (suc n) rand s = elim (Bool-cases (size s.pending_reqs == 0)) [
  | inl empty ↦ rw empty
  | inr more ↦ rw more (drop_loop-config n rand _)
]

overload-config :
    (p : Policy) (connfd : ℤ) (time : Ptr) (rand : ℕ → ℕ) (s : Server)
    → config (Server.overload p connfd time rand s) ≡ config s
unfolding Server.overload Server.block_until_room Server.drop_head Server.drop_random
    Server.flush_wait Server.enqueue Server.reject
overload-config block connfd time rand s = ground arith
overload-config dh connfd time rand s = ground arith
overload-config dt connfd time rand s = refl
overload-config random connfd time rand s =
    ground (arith, drop_loop-config ((size s.pending_reqs + 1) / 2) rand s)
overload-config bf connfd time rand s = ground arith
overload-config other connfd time rand s = refl

pub Step-config : {s t : Server} → Step s t → config t ≡ config s
unfolding Server.accept Server.take_request Server.close_request Server.release_thread
    Server.enqueue
Step-config {s} (Step.accepts connfd time rand idle) =
    ground (
      arith,
      overload-config s.policy connfd time rand (record s { accepted = connfd ∷ s.accepted }),
    )
Step-config {s} Step.wakes = wake-config s.master s
Step-config {s} (Step.takes i now at) = ground arith
Step-config {s} (Step.closes i fd arrival at) = refl
Step-config {s} (Step.releases i fd at) = refl
