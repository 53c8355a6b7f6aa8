-- ===== src/ReqQ/Insert.antt =====
-- `insertReq` of OS_HW3_234123/reqQ.c.
use os.Prelude.{
  suc, ◌≡◌, sym, ◌≢◌, refl, ◌∙◌, true, false, none, some, [], ◌∷◌, ◌++◌, arith, ◌==◌, Bool-cases,
  inl, inr, length, length-append, ap, or-eq_false_left, or-eq_false_right,
}
use os.Prelude.Int.{ℤ, pos, ◌==ℤ◌, +ℤ_one, suc_ne_zero}
use os.ReqQ.{ReqQueue, Malloced, create_request, insert_req}
use os.ReqQ.Heap.{Ptr, null, Heap, write, done, Returns, set_time}
use os.ReqQ.Links.{
  Entry, Cells, Linked, has, last_or, frame-write, not-has_of_none, Linked-IsLast, Linked-join,
  write_self, write_ne, ne_of_has, other_of_has, has-append, last_or-append,
}
use os.ReqQ.Run.{set_next-done, set_previous-done, set_time-done}
use os.ReqQ.Spec.{IsQueue, Outcome, is_full, push}

module _ (m : Malloced) (h : Heap) (fd : ℤ) (time : Ptr) (got : m.ptr ≢ null)
    (unused : h m.ptr ≡ none) where
  abbrev added : Ptr × Entry
  added = (m.ptr, record { fd = fd; time = time })

  abbrev made : Heap
  made = write h m.ptr (some (record m.junk { fd = fd; next = null }))

  abbrev timed : Heap
  timed =
      write made m.ptr
        (some (record { insertion_time = time; fd = fd; next = null; previous = m.junk.previous }))

  create_request-done : create_request m fd h ≡ done m.ptr made
  unfolding create_request
  create_request-done = ground arith

  set_time-timed : set_time m.ptr time made ≡ done tt timed
  set_time-timed = set_time-done made m.ptr _ got (write_self h m.ptr _) time

  same_timed : (a : Ptr) → (a == m.ptr) ≡ false → timed a ≡ h a
  same_timed a e = write_ne made m.ptr a _ e ∙ write_ne h m.ptr a _ e

  insert-empty :
      (q : ReqQueue)
      → (q.cur_size ==ℤ q.max_size) ≡ false
      → IsQueue h q []
      → Returns (Outcome h q.max_size (added ∷ []) (added ∷ [])) (insert_req m (some q) fd time h)
  unfolding insert_req
  insert-empty q room is =
      rw (room, create_request-done, set_time-timed, is.size_is, +ℤ_one 0)
        (record {
          queue = record {
            before = m.junk.previous;
            chain = (got, write_self made m.ptr _, refl, tt);
            head_is = refl;
            tail_is = refl;
            size_is = refl;
          };
          same_limit = refl;
          same = λ a out. same_timed a (or-eq_false_left _ _ out);
        })

  insert-cons :
      (q : ReqQueue) (p : Ptr) (e : Entry) (xs : Cells)
      → (q.cur_size ==ℤ q.max_size) ≡ false
      → IsQueue h q ((p, e) ∷ xs)
      → Returns
          (Outcome h q.max_size (((p, e) ∷ xs) ++ added ∷ []) (((p, e) ∷ xs) ++ added ∷ []))
          (insert_req m (some q) fd time h)
  unfolding insert_req
  insert-cons q p e xs room is =
      let cells = (p, e) ∷ xs in
      let new : has m.ptr cells ≡ false =
        not-has_of_none h m.ptr is.before cells null is.chain unused in
      let chain : Linked timed is.before cells null =
        frame-write made m.ptr _ is.before cells null new
          (frame-write h m.ptr _ is.before cells null new is.chain) in
      let final = Linked-IsLast timed is.before p e xs null chain in
      let apart : (m.ptr == last_or p xs) ≡ false = other_of_has _ _ cells final.member new in
      rw
        (
          room,
          create_request-done,
          set_time-timed,
          is.size_is,
          suc_ne_zero (length xs),
          is.tail_is,
          set_next-done timed (last_or p xs) final.node final.ne_null final.holds m.ptr,
          set_previous-done (write timed (last_or p xs) (some (record final.node { next = m.ptr })))
              m.ptr
              (record { insertion_time = time; fd = fd; next = null; previous = m.junk.previous })
              got (write_ne timed _ m.ptr _ apart ∙ write_self made m.ptr _) (last_or p xs),
          +ℤ_one (suc (length xs)),
        )
        (record {
          queue = record {
            before = is.before;
            chain =
                Linked-join _ is.before cells (added ∷ []) null
                  (frame-write _ m.ptr _ is.before cells m.ptr new (final.relink m.ptr))
                  (got, write_self _ m.ptr _, refl, tt) (λ a i. rw (ne_of_has a m.ptr cells i new));
            head_is = is.head_is;
            tail_is = sym (last_or-append null cells (added ∷ []));
            size_is = ap pos (omega (arith, length-append cells (added ∷ [])));
          };
          same_limit = refl;
          same = λ a out.
              let split = sym (has-append a cells (added ∷ [])) ∙ out in
              let fresh : (a == m.ptr) ≡ false =
                or-eq_false_left _ _ (or-eq_false_right _ _ split) in
              write_ne _ m.ptr a _ fresh
              ∙ write_ne timed _ a _
                  (other_of_has _ a cells final.member (or-eq_false_left _ _ split))
              ∙ same_timed a fresh;
        })

  insert-room :
      (q : ReqQueue) (xs : Cells)
      → (q.cur_size ==ℤ q.max_size) ≡ false
      → IsQueue h q xs
      → let ys = push q.max_size added xs in
        Returns (Outcome h q.max_size ys ys) (insert_req m (some q) fd time h)
  insert-room q [] room is =
      let space : is_full q.max_size (let no : Cells = [] in no) ≡ false = rw (← is.size_is) room in
      rw space (insert-empty q room is)
  insert-room q ((p, e) ∷ xs) room is =
      let space : is_full q.max_size ((p, e) ∷ xs) ≡ false = rw (← is.size_is) room in
      rw space (insert-cons q p e xs room is)

insert-full :
    (m : Malloced) (h : Heap) (fd : ℤ) (time : Ptr) (q : ReqQueue) (xs : Cells)
    → (q.cur_size ==ℤ q.max_size) ≡ true
    → IsQueue h q xs
    → let ys = push q.max_size (m.ptr, record { fd = fd; time = time }) xs in
      Returns (Outcome h q.max_size ys ys) (insert_req m (some q) fd time h)
unfolding insert_req
insert-full m h fd time q xs full is =
    let none_left : is_full q.max_size xs ≡ true = rw (← is.size_is) full in
    rw (full, none_left) (record { queue = is; same_limit = refl; same = λ a out. refl })

-- `insertReq` appends the request to the queue, or leaves a full queue as it is, and touches no
-- other node; `malloc` gave an unused address.
pub insert_req-push :
    (m : Malloced) (h : Heap) (q : ReqQueue) (xs : Cells) (fd : ℤ) (time : Ptr)
    → IsQueue h q xs
    → m.ptr ≢ null
    → h m.ptr ≡ none
    → let ys = push q.max_size (m.ptr, record { fd = fd; time = time }) xs in
      Returns (Outcome h q.max_size ys ys) (insert_req m (some q) fd time h)
insert_req-push m h q xs fd time is got unused = elim (Bool-cases (q.cur_size ==ℤ q.max_size)) [
  | inl full ↦ insert-full m h fd time q xs full is
  | inr room ↦ insert-room m h fd time got unused q xs room is
]
