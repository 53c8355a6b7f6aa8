-- ===== src/ReqQ/Run.antt =====
-- What the commands on one node of OS_HW3_234123/reqQ.c do where the node is there.
use os.Prelude.{◌≡◌, ◌≢◌, none, some, arith, ◌==◌, false}
use os.ReqQ.Heap.{Ptr, null, Req, Heap, write, done, load, free, set_next, set_previous, set_time}

module _ (h : Heap) (p : Ptr) (r : Req) (there : p ≢ null) (holds : h p ≡ some r) where
  not_null : (p == null) ≡ false
  not_null = ground arith

  pub load-done : load p h ≡ done r h
  unfolding load
  load-done = rw (not_null, holds)

  pub free-done : free p h ≡ done tt (write h p none)
  unfolding free
  free-done = rw load-done

  pub set_next-done :
      (q : Ptr) → set_next p q h ≡ done tt (write h p (some (record r { next = q })))
  unfolding set_next
  set_next-done q = rw load-done

  pub set_previous-done :
      (q : Ptr) → set_previous p q h ≡ done tt (write h p (some (record r { previous = q })))
  unfolding set_previous
  set_previous-done q = rw load-done

  pub set_time-done :
      (t : Ptr) → set_time p t h ≡ done tt (write h p (some (record r { insertion_time = t })))
  unfolding set_time
  set_time-done t = rw load-done
