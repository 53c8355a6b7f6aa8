-- ===== src/ReqQ/Examples.antt =====
-- The operations of OS_HW3_234123/reqQ.c at a queue of three requests.
use os.Prelude.{◌≡◌, refl, none, some, [], ◌∷◌, arith, ◌==◌, if◌then◌else◌}
use os.Prelude.Int.{pos}
use os.ReqQ.{ReqQueue, Malloced, insert_req, remove_first_req, remove_req, find_file_id}
use os.ReqQ.Heap.{null, Heap, done, Returns}
use os.ReqQ.Links.{Cells, req}
use os.ReqQ.Spec.{IsQueue, Outcome, Removed, push, pop_rest, remove_at}
use os.ReqQ.Insert.{insert_req-push}
use os.ReqQ.RemoveFirst.{remove_first_req-pop}
use os.ReqQ.Remove.{remove_req-remove_at}
use os.ReqQ.Search.{find_file_id-index_from}

abbrev cells : Cells
cells =
    (10, record { fd = pos 4; time = 100 })
    ∷ (30, record { fd = pos 5; time = 200 })
    ∷ (20, record { fd = pos 6; time = 300 })
    ∷ []

abbrev heap : Heap
heap a =
    if a == 10
    then some (req (record { fd = pos 4; time = 100 }) 30 77)
    else if a == 30
    then some (req (record { fd = pos 5; time = 200 }) 20 10)
    else if a == 20
    then some (req (record { fd = pos 6; time = 300 }) null 30)
    else none

abbrev queue : ReqQueue
queue = record { max_size = pos 4; cur_size = pos 3; head = 10; tail = 20 }

abbrev fresh : Malloced
fresh = record {
  ptr = 40;
  junk = record { insertion_time = 1; fd = pos 2; next = 3; previous = 4 };
}

abbrev cells_after : Cells
cells_after = push (pos 4) (40, record { fd = pos 7; time = 400 }) cells

queue-IsQueue : IsQueue heap queue cells
queue-IsQueue = record {
  before = 77;
  chain = (omega arith, refl, refl, (omega arith, refl, refl, (omega arith, refl, refl, tt)));
  head_is = refl;
  tail_is = refl;
  size_is = refl;
}

insert_req-push_example :
    Returns
      (Outcome heap (pos 4) cells_after cells_after)
      (insert_req fresh (some queue) (pos 7) 400 heap)
insert_req-push_example =
    insert_req-push fresh heap queue cells (pos 7) 400 queue-IsQueue (omega arith) refl

remove_first_req-pop_example :
    Returns
      (λ r. Removed heap (pos 4) cells (pop_rest cells) (pos 4) r.0 r.1)
      (remove_first_req (some queue) heap)
remove_first_req-pop_example = remove_first_req-pop heap queue cells queue-IsQueue

remove_req-remove_at_example :
    Returns
      (λ r. Removed heap (pos 4) cells (remove_at (pos 1) cells) (pos 5) r.0 r.1)
      (remove_req (some queue) (pos 1) heap)
remove_req-remove_at_example = remove_req-remove_at heap queue cells (pos 1) queue-IsQueue

find_file_id-index_from_example : find_file_id (some queue) (pos 6) heap ≡ done (pos 2) heap
find_file_id-index_from_example = find_file_id-index_from heap queue cells (pos 6) queue-IsQueue
