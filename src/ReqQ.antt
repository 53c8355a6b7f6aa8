-- ===== src/ReqQ.antt =====
-- The queue of requests of OS_HW3_234123/reqQ.c, over an explicit heap of nodes.
-- A `ReqQ` is NULL (`none`) or points to a queue structure, whose new value each operation returns.
pub mod Heap
pub mod Links
pub mod Run
pub mod Spec
pub mod Fifo
pub mod Insert
pub mod RemoveFirst
pub mod Remove
pub mod Search
mod Examples
use os.Prelude.{ℕ, zero, suc, ◌+◌, Bool, true, false, ◌||◌, Option, none, some, ◌==◌, if◌then◌else◌}
use os.Prelude.Int.{ℤ, pos, negsuc, pos_part, neg_part, ◌+ℤ◌, ◌-ℤ◌, ltb_ℤ, leb_ℤ, ◌==ℤ◌}
use Heap.{
  Ptr, null, Req, Cmd, pure, ◌>>=◌, ◌>>◌, store, load, free, set_next, set_previous, set_time,
}

pub record ReqQueue : Type 0 where
  pub max_size : ℤ
  pub cur_size : ℤ
  pub head : Ptr
  pub tail : Ptr

abbrev pub ReqQ : Type 0
ReqQ = Option ReqQueue

-- What `malloc` gave: an address, NULL when it failed, and what the memory there held before.
pub record Malloced : Type 0 where
  pub ptr : Ptr
  pub junk : Req

-- The value -1, by which the functions report failure.
abbrev pub failure : ℤ
failure = negsuc 0

unfoldable pub create_request : Malloced → ℤ → Cmd Ptr
create_request m fd =
    if m.ptr == null
    then pure null
    else do store m.ptr (some (record m.junk { fd = fd; next = null })); pure m.ptr

-- The argument says whether `malloc` succeeded.
unfoldable pub create_req_queue : Bool → ℤ → ReqQ
create_req_queue false limit = none
create_req_queue true limit =
    some (record { max_size = limit; cur_size = pos 0; head = null; tail = null })

abbrev pub is_q_null : ReqQ → Bool
is_q_null none = true
is_q_null (some q) = false

abbrev pub is_q_full : ReqQ → Bool
is_q_full none = false
is_q_full (some q) = q.cur_size ==ℤ q.max_size

abbrev pub is_q_empty : ReqQ → Bool
is_q_empty none = true
is_q_empty (some q) = q.cur_size ==ℤ pos 0

abbrev pub get_q_size : ReqQ → ℤ
get_q_size none = failure
get_q_size (some q) = q.cur_size

abbrev pub inc_size : ReqQ → ReqQ
inc_size none = none
inc_size (some q) = some (record q { cur_size = q.cur_size +ℤ pos 1 })

abbrev pub dec_size : ReqQ → ReqQ
dec_size none = none
dec_size (some q) = some (record q { cur_size = q.cur_size -ℤ pos 1 })

-- The node that is not checked for NULL is written at once: a failed `malloc` is a fault.
unfoldable pub insert_req : Malloced → ReqQ → ℤ → Ptr → Cmd ReqQ
insert_req m none file_id tt = pure none
insert_req m (some q) file_id tt = if is_q_full (some q) then pure (some q) else do
  r ← create_request m file_id
  set_time r tt
  if is_q_empty (some q)
      then pure (inc_size (some (record q { tail = r; head = r })))
      else (set_next q.tail r
          >> set_previous r q.tail
          >> pure (inc_size (some (record q { tail = r }))))

unfoldable pub remove_first_req : ReqQ → Cmd (ℤ × ReqQ)
remove_first_req none = pure (failure, none)
remove_first_req (some q) = if is_q_empty (some q) then pure (failure, some q) else do
  first ← load q.head
  if q.cur_size ==ℤ pos 1
      then free q.head >> pure (first.fd, dec_size (some (record q { head = null; tail = null })))
      else (free q.head
          >> set_previous first.next null
          >> pure (first.fd, dec_size (some (record q { head = first.next }))))

-- `for (i = 0; i < index; i++) tmp = tmp->next;`
unfoldable pub walk : ℕ → Ptr → Cmd Ptr
walk zero tmp = pure tmp
walk (suc n) tmp = do r ← load tmp; walk n r.next

-- The part of `removeReq` behind its checks: the node `tmp` is unlinked from its neighbours.
unfoldable pub unlink_req : ReqQueue → (index ss : ℤ) (tmp : Ptr) → Cmd (ℤ × ReqQ)
unlink_req q index ss tmp = do
  t ← load tmp
  if t.previous == null then remove_first_req (some q) else do
    set_next t.previous t.next
    prev ← load t.previous
    if prev.next == null then pure tt else set_previous prev.next t.previous
    free tmp
    let q' = if leb_ℤ (ss -ℤ pos 1) index then record q { tail = t.previous } else q
    pure (t.fd, dec_size (some q'))

unfoldable pub remove_req : ReqQ → ℤ → Cmd (ℤ × ReqQ)
remove_req none index = pure (failure, none)
remove_req (some q) index =
    if is_q_empty (some q)
    then pure (failure, some q)
    else if get_q_size (some q) ==ℤ failure
    then pure (failure, some q)
    else if ltb_ℤ index (pos 0) || leb_ℤ (get_q_size (some q)) index
    then pure (failure, some q)
    else if index ==ℤ pos 0
    then remove_first_req (some q)
    else do tmp ← walk (pos_part index) q.head; unlink_req q index (get_q_size (some q)) tmp

-- The loop of `findFileId`, with the rounds that are left.
unfoldable pub find_loop : ℕ → ℕ → ℤ → Ptr → Cmd ℤ
find_loop zero i file_id tmp = pure failure
find_loop (suc n) i file_id tmp = do
  r ← load tmp
  if file_id ==ℤ r.fd then pure (pos i) else find_loop n (i + 1) file_id r.next

unfoldable pub find_file_id : ReqQ → ℤ → Cmd ℤ
find_file_id none file_id = pure failure
find_file_id (some q) file_id =
    if is_q_empty (some q)
    then pure failure
    else if (get_q_size (some q) ==ℤ failure) || (get_q_size (some q) ==ℤ pos 0)
    then pure failure
    else find_loop (pos_part (get_q_size (some q))) 0 file_id q.head

unfoldable pub get_first_req_time : ReqQ → Cmd Ptr
get_first_req_time none = pure null
get_first_req_time (some q) =
    if is_q_empty (some q)
    then pure null
    else if q.head == null
    then pure null
    else do r ← load q.head; pure r.insertion_time

-- The loop of `getReqTime`.
unfoldable pub time_loop : ℕ → ℤ → Ptr → Cmd Ptr
time_loop zero fd tmp = pure null
time_loop (suc n) fd tmp = do
  r ← load tmp
  if fd ==ℤ r.fd then pure r.insertion_time else time_loop n fd r.next

unfoldable pub get_req_time : ReqQ → ℤ → Cmd Ptr
get_req_time none fd = pure null
get_req_time (some q) fd =
    if is_q_empty (some q)
    then pure null
    else if get_q_size (some q) ==ℤ failure
    then pure null
    else time_loop (pos_part (get_q_size (some q))) fd q.head
