-- ===== src/ReqQ/RemoveFirst.antt =====
-- `removeFirstReq` of OS_HW3_234123/reqQ.c.
use os.Prelude.{
  suc, ◌≡◌, refl, ◌∙◌, true, false, none, some, [], ◌∷◌, ◌==◌, length, or-eq_false_left,
  or-eq_false_right,
}
use os.Prelude.Int.{pos, ◌==ℤ◌, -ℤ_one, suc_ne_zero, suc-suc_ne_one}
use os.ReqQ.{ReqQueue, failure, remove_first_req}
use os.ReqQ.Heap.{Ptr, null, Heap, write, Returns}
use os.ReqQ.Links.{
  Entry, Cells, req, first_or, frame-write, write_self, write_ne, eq_sym_false, freed_head,
}
use os.ReqQ.Run.{load-done, free-done, set_previous-done}
use os.ReqQ.Spec.{IsQueue, Removed, first_fd, pop_rest}

module _ (h : Heap) (q : ReqQueue) where
  remove_first-one :
      (p : Ptr) (e : Entry)
      → IsQueue h q ((p, e) ∷ [])
      → Returns
          (λ r. Removed h q.max_size ((p, e) ∷ []) [] e.fd r.0 r.1)
          (remove_first_req (some q) h)
  unfolding remove_first_req
  remove_first-one p e is =
      rw
        (
          is.size_is,
          is.head_is,
          load-done h p _ is.chain.0 is.chain.1,
          free-done h p _ is.chain.0 is.chain.1,
          -ℤ_one 0,
        )
        (record {
          value = refl;
          rest = record {
            queue = record {
              before = null;
              chain = tt;
              head_is = refl;
              tail_is = refl;
              size_is = refl;
            };
            same_limit = refl;
            same = λ a out. write_ne h p a none (or-eq_false_left _ _ out);
          };
          freed = λ a i out. freed_head h p a e [] i out;
        })

  remove_first-more :
      (p : Ptr) (e : Entry) (p' : Ptr) (e' : Entry) (xs : Cells)
      → let ys = (p', e') ∷ xs in
        IsQueue h q ((p, e) ∷ ys)
        → Returns
            (λ r. Removed h q.max_size ((p, e) ∷ ys) ys e.fd r.0 r.1)
            (remove_first_req (some q) h)
  unfolding remove_first_req
  remove_first-more p e p' e' xs is =
      let chain = is.chain in
      let apart : (p == p') ≡ false = or-eq_false_left _ _ chain.2 in
      let apart' : (p' == p) ≡ false = eq_sym_false p p' apart in
      rw
        (
          is.size_is,
          suc_ne_zero (suc (length xs)),
          is.head_is,
          load-done h p _ chain.0 chain.1,
          suc-suc_ne_one (length xs),
          free-done h p _ chain.0 chain.1,
          set_previous-done (write h p none) p' (req e' (first_or null xs) p) chain.3.0
              (write_ne h p p' none apart' ∙ chain.3.1) null,
          -ℤ_one (suc (length xs)),
        )
        (record {
          value = refl;
          rest = record {
            queue = record {
              before = null;
              chain = (
                chain.3.0,
                write_self _ p' _,
                chain.3.2,
                frame-write _ p' _ p' xs null chain.3.2
                    (frame-write h p none p' xs null (or-eq_false_right _ _ chain.2) chain.3.3),
              );
              head_is = refl;
              tail_is = is.tail_is;
              size_is = refl;
            };
            same_limit = refl;
            same = λ a out.
                write_ne _ p' a _ (or-eq_false_left _ _ (or-eq_false_right _ _ out))
                ∙ write_ne h p a none (or-eq_false_left _ _ out);
          };
          freed = λ a i out.
              write_ne _ p' a _ (or-eq_false_left _ _ out)
              ∙ freed_head h p a e ((p', e') ∷ xs) i out;
        })

  remove_first-nil :
      IsQueue h q []
      → Returns (λ r. Removed h q.max_size [] [] failure r.0 r.1) (remove_first_req (some q) h)
  unfolding remove_first_req
  remove_first-nil is =
      let empty : (q.cur_size ==ℤ pos 0) ≡ true = rw is.size_is in
      rw empty (record {
        value = refl;
        rest = record { queue = is; same_limit = refl; same = λ a out. refl };
        freed = λ a i out. cc;
      })

-- `removeFirstReq` returns the oldest descriptor, frees its node and keeps the rest in order; on an
-- empty queue it returns -1 and changes nothing.
pub remove_first_req-pop :
    (h : Heap) (q : ReqQueue) (xs : Cells)
    → IsQueue h q xs
    → Returns
        (λ r. Removed h q.max_size xs (pop_rest xs) (first_fd xs) r.0 r.1)
        (remove_first_req (some q) h)
remove_first_req-pop h q [] is = remove_first-nil h q is
remove_first_req-pop h q ((p, e) ∷ []) is = remove_first-one h q p e is
remove_first_req-pop h q ((p, e) ∷ (p', e') ∷ xs) is = remove_first-more h q p e p' e' xs is
