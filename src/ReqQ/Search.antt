-- ===== src/ReqQ/Search.antt =====
-- `findFileId`, `getFirstReqTime` and `getReqTime` of OS_HW3_234123/reqQ.c.
use os.Prelude.{ℕ, ◌+◌, ◌≡◌, refl, true, some, [], ◌∷◌, length, Bool-cases, inl, inr}
use os.Prelude.Int.{ℤ, pos, ◌==ℤ◌, suc_ne_zero}
use os.ReqQ.{ReqQueue, find_loop, find_file_id, time_loop, get_first_req_time, get_req_time}
use os.ReqQ.Heap.{Ptr, null, Heap, done}
use os.ReqQ.Links.{Cells, Linked, first_or, ne_null-false}
use os.ReqQ.Run.{load-done}
use os.ReqQ.Spec.{IsQueue, index_from, time_of, first_time}

find_loop-index_from :
    (h : Heap) (q : Ptr) (xs : Cells) (i : ℕ) (fd : ℤ)
    → Linked h q xs null
    → find_loop (length xs) i fd (first_or null xs) h ≡ done (index_from i fd xs) h
unfolding find_loop
find_loop-index_from h q [] i fd l = refl
find_loop-index_from h q ((p, e) ∷ xs) i fd l = elim (Bool-cases (fd ==ℤ e.fd)) [
  | inl hit ↦ rw (load-done h p _ l.0 l.1, hit)
  | inr miss ↦ rw (load-done h p _ l.0 l.1, miss) (find_loop-index_from h p xs (i + 1) fd l.3)
]

time_loop-time_of :
    (h : Heap) (q : Ptr) (xs : Cells) (fd : ℤ)
    → Linked h q xs null
    → time_loop (length xs) fd (first_or null xs) h ≡ done (time_of fd xs) h
unfolding time_loop
time_loop-time_of h q [] fd l = refl
time_loop-time_of h q ((p, e) ∷ xs) fd l = elim (Bool-cases (fd ==ℤ e.fd)) [
  | inl hit ↦ rw (load-done h p _ l.0 l.1, hit)
  | inr miss ↦ rw (load-done h p _ l.0 l.1, miss) (time_loop-time_of h p xs fd l.3)
]

-- `findFileId` returns the index of the first request with the descriptor, or -1 where there is
-- none, and writes nothing.
pub find_file_id-index_from :
    (h : Heap) (q : ReqQueue) (xs : Cells) (fd : ℤ)
    → IsQueue h q xs
    → find_file_id (some q) fd h ≡ done (index_from 0 fd xs) h
unfolding find_file_id
find_file_id-index_from h q [] fd is =
    let empty : (q.cur_size ==ℤ pos 0) ≡ true = rw is.size_is in rw empty
find_file_id-index_from h q (c ∷ xs) fd is =
    rw (is.size_is, suc_ne_zero (length xs), is.head_is)
      (find_loop-index_from h is.before (c ∷ xs) 0 fd is.chain)

-- `getReqTime` returns the insertion time of the first request with the descriptor, or NULL, and
-- `getFirstReqTime` that of the oldest request, or NULL.
pub get_time_lem :
    (h : Heap) (q : ReqQueue) (xs : Cells) (fd : ℤ)
    → IsQueue h q xs
    → (get_req_time (some q) fd h ≡ done (time_of fd xs) h)
      × (get_first_req_time (some q) h ≡ done (first_time xs) h)
unfolding get_req_time get_first_req_time
get_time_lem h q [] fd is =
    let empty : (q.cur_size ==ℤ pos 0) ≡ true = rw is.size_is in (rw empty, rw empty)
get_time_lem h q ((p, e) ∷ xs) fd is = (
  rw (is.size_is, suc_ne_zero (length xs), is.head_is)
      (time_loop-time_of h is.before ((p, e) ∷ xs) fd is.chain),
  rw (
    is.size_is,
    suc_ne_zero (length xs),
    is.head_is,
    ne_null-false p is.chain.0,
    load-done h p _ is.chain.0 is.chain.1,
  ),
)
