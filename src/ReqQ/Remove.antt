-- ===== src/ReqQ/Remove.antt =====
-- `removeReq` of OS_HW3_234123/reqQ.c.
use os.Prelude.{
  ℕ, zero, suc, ◌<◌, ◌≤◌, ◌≡◌, refl, sym, ◌∙◌, true, false, none, some, [], ◌∷◌, ◌++◌, arith, ◌==◌,
  length, length-append, length-middle, erase_idx, get_elem?, ap, Bool-cases, inl, inr,
  or-eq_false_left, or-eq_false_right, append-nil, subst, ltb, erase_idx_past, get_elem?_past, ◌||◌,
}
use os.Prelude.Int.{ℤ, pos, negsuc, ◌==ℤ◌, ltb_ℤ, leb_ℤ, -ℤ_one, suc_ne_zero}
use os.ReqQ.{ReqQueue, failure, walk, unlink_req, remove_req, remove_first_req}
use os.ReqQ.Heap.{Ptr, null, Heap, write, done, Returns}
use os.ReqQ.Links.{
  Entry, Cells, Linked, req, has, first_or, last_or, frame-write, write_self, write_ne,
  eq_sym_false, Linked-split, Linked-join, Linked-IsLast, Apart, not-has_of_Apart, has_only,
  write_at, ne_null-false, other_of_has, has-append, last_or-append, first_or-append,
}
use os.ReqQ.Run.{load-done, free-done, set_next-done, set_previous-done}
use os.ReqQ.Spec.{IsQueue, Removed, remove_at, at, fd_of_cell}
use os.ReqQ.RemoveFirst.{remove_first_req-pop}

-- The cells around an index.
record Around (xs : Cells) (i : ℕ) : Type 0 where
  front : Cells
  cell : Ptr × Entry
  back : Cells
  whole : xs ≡ front ++ cell ∷ back
  index : length front ≡ i
  found : get_elem? xs i ≡ some cell
  rest : erase_idx xs i ≡ front ++ back

around : (xs : Cells) (i : ℕ) → i < length xs → Around xs i
around [] i h = elim h [ ]
around (x ∷ xs) zero h = record {
  front = [];
  cell = x;
  back = xs;
  whole = refl;
  index = refl;
  found = refl;
  rest = refl;
}
around (x ∷ xs) (suc i) h =
    let a = around xs i (omega arith) in
    record {
      front = x ∷ a.front;
      cell = a.cell;
      back = a.back;
      whole = ap (λ t. x ∷ t) a.whole;
      index = ap suc a.index;
      found = a.found;
      rest = ap (λ t. x ∷ t) a.rest;
    }

-- The walk from the first node ends at the node behind `front`.
walk-done :
    (h : Heap) (q : Ptr) (front : Cells) (r : Ptr)
    → Linked h q front r
    → walk (length front) (first_or r front) h ≡ done r h
unfolding walk
walk-done h q [] r l = refl
walk-done h q ((p, e) ∷ xs) r l = rw (load-done h p _ l.0 l.1) (walk-done h p xs r l.3)

module _ (h : Heap) (q : ReqQueue) (y : Ptr × Entry) (ys : Cells) (p : Ptr) (e : Entry) where
  abbrev front : Cells
  front = y ∷ ys

  abbrev prev : Ptr
  prev = last_or y.0 ys

  -- Removal of the last node.
  unlink-last :
      IsQueue h q (front ++ (p, e) ∷ [])
      → Returns
          (λ r. Removed h q.max_size (front ++ (p, e) ∷ []) front e.fd r.0 r.1)
          (unlink_req q (pos (length front)) q.cur_size p h)
  unfolding unlink_req
  unlink-last is =
      let parts = Linked-split h is.before front ((p, e) ∷ []) null is.chain in
      let final = Linked-IsLast h is.before y.0 y.1 ys p parts.0 in
      let out : has p front ≡ false = not-has_of_Apart p e front [] parts.2 in
      let apart : (p == prev) ≡ false = other_of_has prev p front final.member out in
      let at_end : leb_ℤ (pos (length (ys ++ (p, e) ∷ []))) (pos (length front)) ≡ true =
        ground (arith, length-append ys ((p, e) ∷ [])) in
      rw
        (
          load-done h p _ parts.1.0 parts.1.1,
          ne_null-false prev final.ne_null,
          set_next-done h prev final.node final.ne_null final.holds null,
          load-done (write h prev (some (record final.node { next = null }))) prev
              (record final.node { next = null }) final.ne_null (write_self h prev _),
          free-done (write h prev (some (record final.node { next = null }))) p _ parts.1.0
              (write_ne h prev p _ apart ∙ parts.1.1),
          is.size_is,
          -ℤ_one (length (ys ++ (p, e) ∷ [])),
          at_end,
        )
        (record {
          value = refl;
          rest = record {
            queue = record {
              before = is.before;
              chain = frame-write _ p none is.before front null out (final.relink null);
              head_is = is.head_is;
              tail_is = refl;
              size_is =
                  -ℤ_one (length (ys ++ (p, e) ∷ []))
                  ∙ ap pos (omega (arith, length-append ys ((p, e) ∷ [])));
            };
            same_limit = refl;
            same = λ a o.
                let split = sym (has-append a front ((p, e) ∷ [])) ∙ o in
                write_ne _ p a none (or-eq_false_left _ _ (or-eq_false_right _ _ split))
                ∙ write_ne h prev a _
                    (other_of_has prev a front final.member (or-eq_false_left _ _ split));
          };
          freed = λ a i o.
              write_at _ p a none (has_only a p e front [] i (has-append a front [] ∙ rw (o)));
        })

  -- Removal of a node between two others.
  unlink-mid :
      (p' : Ptr) (e' : Entry) (zs : Cells)
      → IsQueue h q (front ++ (p, e) ∷ (p', e') ∷ zs)
      → Returns
          (λ r.
            Removed h q.max_size
              (front ++ (p, e) ∷ (p', e') ∷ zs)
              (front ++ (p', e') ∷ zs)
              e.fd
              r.0
              r.1)
          (unlink_req q (pos (length front)) q.cur_size p h)
  unfolding unlink_req
  unlink-mid p' e' zs is =
      let back : Cells = (p', e') ∷ zs in
      let parts = Linked-split h is.before front ((p, e) ∷ back) null is.chain in
      let final = Linked-IsLast h is.before y.0 y.1 ys p parts.0 in
      let behind = parts.1.3 in
      let out : has p front ≡ false = not-has_of_Apart p e front back parts.2 in
      let apart : Apart front back = λ a i. or-eq_false_right _ _ (parts.2 a i) in
      let out' : has p' front ≡ false = not-has_of_Apart p' e' front zs apart in
      let p-prev : (p == prev) ≡ false = other_of_has prev p front final.member out in
      let p'-prev : (p' == prev) ≡ false = other_of_has prev p' front final.member out' in
      let p-p' : (p == p') ≡ false = or-eq_false_left _ _ parts.1.2 in
      let p'-p : (p' == p) ≡ false = eq_sym_false p p' p-p' in
      let prev_out : has prev zs ≡ false = or-eq_false_right _ _ (apart prev final.member) in
      let p_out : has p zs ≡ false = or-eq_false_right _ _ parts.1.2 in
      let h1 : Heap = write h prev (some (record final.node { next = p' })) in
      let h2 : Heap = write h1 p' (some (req e' (first_or null zs) prev)) in
      let inside : leb_ℤ (pos (length (ys ++ (p, e) ∷ back))) (pos (length front)) ≡ false =
        ground (arith, length-append ys ((p, e) ∷ back)) in
      rw
        (
          load-done h p _ parts.1.0 parts.1.1,
          ne_null-false prev final.ne_null,
          set_next-done h prev final.node final.ne_null final.holds p',
          load-done h1 prev (record final.node { next = p' }) final.ne_null (write_self h prev _),
          ne_null-false p' behind.0,
          set_previous-done h1 p' (req e' (first_or null zs) p) behind.0
              (write_ne h prev p' _ p'-prev ∙ behind.1) prev,
          free-done h2 p (req e p' prev) parts.1.0
              (write_ne h1 p' p _ p-p' ∙ write_ne h prev p _ p-prev ∙ parts.1.1),
          is.size_is,
          -ℤ_one (length (ys ++ (p, e) ∷ back)),
          inside,
        )
        (record {
          value = refl;
          rest = record {
            queue = record {
              before = is.before;
              chain =
                  Linked-join _ is.before front back null
                    (frame-write h2 p none is.before front p' out
                      (frame-write h1 p' _ is.before front p' out' (final.relink p')))
                    (
                      behind.0,
                      write_ne h2 p p' none p'-p ∙ write_self h1 p' _,
                      behind.2,
                      frame-write h2 p none p' zs null p_out (
                          frame-write h1 p' _ p' zs null behind.2
                            (frame-write h prev _ p' zs null prev_out behind.3)),
                    )
                    apart;
              head_is = is.head_is;
              tail_is =
                  is.tail_is
                  ∙ last_or-append y.0 ys ((p, e) ∷ back)
                  ∙ sym (last_or-append y.0 ys back);
              size_is =
                  -ℤ_one (length (ys ++ (p, e) ∷ back)) ∙ ap pos (length-middle ys (p, e) back);
            };
            same_limit = refl;
            same = λ a o.
                let split = sym (has-append a front ((p, e) ∷ back)) ∙ o in
                let tail_out = or-eq_false_right _ _ split in
                write_ne h2 p a none (or-eq_false_left _ _ tail_out)
                ∙ write_ne h1 p' a _ (or-eq_false_left _ _ (or-eq_false_right _ _ tail_out))
                ∙ write_ne h prev a _
                    (other_of_has prev a front final.member (or-eq_false_left _ _ split));
          };
          freed = λ a i o. write_at h2 p a none (has_only a p e front back i o);
        })

-- The part of `removeReq` behind its checks, at any node but the first.
unlink-around :
    (h : Heap) (q : ReqQueue) (i : ℕ) (front : Cells) (p : Ptr) (e : Entry) (back : Cells)
    → length front ≡ suc i
    → IsQueue h q (front ++ (p, e) ∷ back)
    → Returns
        (λ r. Removed h q.max_size (front ++ (p, e) ∷ back) (front ++ back) e.fd r.0 r.1)
        (unlink_req q (pos (suc i)) q.cur_size p h)
unlink-around h q i [] p e back n is = absurd (omega arith)
unlink-around h q i (y ∷ ys) p e [] n is = rw (← n, append-nil) (unlink-last h q y ys p e is)
unlink-around h q i (y ∷ ys) p e ((p', e') ∷ zs) n is =
    rw (← n) (unlink-mid h q y ys p e p' e' zs is)

walk-around :
    (h : Heap) (q : ReqQueue) (i : ℕ) (front : Cells) (p : Ptr) (e : Entry) (back : Cells)
    → length front ≡ i
    → IsQueue h q (front ++ (p, e) ∷ back)
    → walk i q.head h ≡ done p h
walk-around h q i front p e back n is =
    let parts = Linked-split h is.before front ((p, e) ∷ back) null is.chain in
    rw (← n, is.head_is, first_or-append null front ((p, e) ∷ back))
      (walk-done h is.before front p parts.0)

unchanged :
    (h : Heap) (q : ReqQueue) (xs : Cells)
    → IsQueue h q xs
    → Removed h q.max_size xs xs failure failure (some q) h
unchanged h q xs is = record {
  value = refl;
  rest = record { queue = is; same_limit = refl; same = λ a out. refl };
  freed = λ a i out. cc;
}

remove_req-inside :
    (h : Heap) (q : ReqQueue) (xs : Cells) (i : ℕ)
    → IsQueue h q xs
    → suc i < length xs
    → Returns
        (λ r.
          Removed h q.max_size xs
            (erase_idx xs (suc i))
            (fd_of_cell (get_elem? xs (suc i)))
            r.0
            r.1)
        (remove_req (some q) (pos (suc i)) h)
unfolding remove_req
remove_req-inside h q xs i is lt =
    let a = around xs (suc i) lt in
    let whole : IsQueue h q (a.front ++ a.cell ∷ a.back) = subst (IsQueue h q) a.whole is in
    let some_left : (q.cur_size ==ℤ pos 0) ≡ false = rw is.size_is (ground arith) in
    let counted : (q.cur_size ==ℤ failure) ≡ false = rw is.size_is in
    let inside : (ltb_ℤ (pos (suc i)) (pos 0) || leb_ℤ q.cur_size (pos (suc i))) ≡ false =
      rw is.size_is (ground arith) in
    rw
      (
        some_left,
        counted,
        inside,
        suc_ne_zero i,
        walk-around h q (suc i) a.front a.cell.0 a.cell.1 a.back a.index whole,
        a.found,
        a.rest,
      )
      (subst
        (λ ys.
          Returns (λ r. Removed h q.max_size ys (a.front ++ a.back) a.cell.1.fd r.0 r.1)
            (unlink_req q (pos (suc i)) q.cur_size a.cell.0 h))
        (sym a.whole) (unlink-around h q i a.front a.cell.0 a.cell.1 a.back a.index whole))

remove_req-outside :
    (h : Heap) (q : ReqQueue) (xs : Cells) (index : ℤ)
    → IsQueue h q xs
    → (ltb_ℤ index (pos 0) || leb_ℤ (pos (length xs)) index) ≡ true
    → remove_req (some q) index h ≡ done (failure, some q) h
unfolding remove_req
remove_req-outside h q xs index is out = elim (Bool-cases (q.cur_size ==ℤ pos 0)) [
  | inl empty ↦ rw empty
  | inr some_left ↦
      let counted : (q.cur_size ==ℤ failure) ≡ false = rw is.size_is in
      let outside : (ltb_ℤ index (pos 0) || leb_ℤ q.cur_size index) ≡ true = rw is.size_is out in
      rw (some_left, counted, outside)
]

remove_req-zero :
    (h : Heap) (q : ReqQueue) (c : Ptr × Entry) (xs : Cells)
    → IsQueue h q (c ∷ xs)
    → remove_req (some q) (pos 0) h ≡ remove_first_req (some q) h
unfolding remove_req
remove_req-zero h q c xs is =
    let some_left : (q.cur_size ==ℤ pos 0) ≡ false = rw is.size_is (ground arith) in
    let counted : (q.cur_size ==ℤ failure) ≡ false = rw is.size_is in
    let inside : (ltb_ℤ (pos 0) (pos 0) || leb_ℤ q.cur_size (pos 0)) ≡ false =
      rw is.size_is (ground arith) in
    rw (some_left, counted, inside)

-- `removeReq` removes exactly the node at the index, frees it and returns its descriptor, and
-- leaves the order of the others; at an index out of range it returns -1 and changes nothing.
pub remove_req-remove_at :
    (h : Heap) (q : ReqQueue) (xs : Cells) (index : ℤ)
    → IsQueue h q xs
    → Returns
        (λ r. Removed h q.max_size xs (remove_at index xs) (fd_of_cell (at index xs)) r.0 r.1)
        (remove_req (some q) index h)
remove_req-remove_at h q xs (negsuc n) is =
    rw (remove_req-outside h q xs (negsuc n) is (ground arith)) (unchanged h q xs is)
remove_req-remove_at h q [] (pos i) is =
    rw (remove_req-outside h q [] (pos i) is (ground arith)) (unchanged h q [] is)
remove_req-remove_at h q (c ∷ xs) (pos zero) is =
    rw (remove_req-zero h q c xs is) (remove_first_req-pop h q (c ∷ xs) is)
remove_req-remove_at h q (c ∷ xs) (pos (suc i)) is = elim (Bool-cases (ltb i (length xs))) [
  | inl lt ↦ remove_req-inside h q (c ∷ xs) i is (ground arith)
  | inr out ↦
      let past : length (c ∷ xs) ≤ suc i = ground arith in
      rw
        (
          remove_req-outside h q (c ∷ xs) (pos (suc i)) is (ground arith),
          erase_idx_past (c ∷ xs) (suc i) past,
          get_elem?_past (c ∷ xs) (suc i) past,
        )
        (unchanged h q (c ∷ xs) is)
]
