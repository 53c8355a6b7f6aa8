-- ===== src/Buddy/Delete.antt =====
-- What `delMD` of OS_HW4_234123/malloc_3.cpp leaves of the list and its links.
use os.Prelude.{
  ℕ, zero, suc, ◌+◌, ◌<◌, ◌≡◌, refl, sym, subst, ◌∙◌, true, false, some, List, [], ◌∷◌, ◌++◌, arith,
  length, append-nil, ◌==◌, ==_self,
}
use os.Buddy.Lists.{
  nullptr, Memory, md_size, set_next, set_prev, MdList, del_loop, bypass, unlink_md, del_md,
}
use os.Buddy.Prevs.{DeletedPrevs, prev-set_next, last-DeletedPrevs, followed-DeletedPrevs}
use os.Buddy.Order.{
  has, first_or, last_or, Linked, frame, back-Linked, has-append, ne_of_has, other_of_has, has_last,
  last_apart,
}
use os.Buddy.Kept.{next-set_prev, next-set_next, next-set_next_other, Kept, unlink_md-Kept}
use os.Buddy.Insert.{IsList, last_or-snoc}

-- The data of each node stand behind its metadata.
abbrev pub HasOwnAddress : Memory → List ℕ → Type 0
HasOwnAddress m [] = Unit
HasOwnAddress m (x ∷ xs) = ((m x).address ≡ x + md_size) × HasOwnAddress m xs

HasOwnAddress-middle :
    (m : Memory) (md : ℕ) (front back : List ℕ)
    → HasOwnAddress m (front ++ md ∷ back)
    → (m md).address ≡ md + md_size
HasOwnAddress-middle m md [] back h = h.0
HasOwnAddress-middle m md (x ∷ front) back h = HasOwnAddress-middle m md front back h.1

-- The loop of `delMD` stops at the node, behind those in front of it.
del_loop_stops :
    (fuel prev md p : ℕ) (m : Memory) (front back : List ℕ)
    → Linked m p (front ++ md ∷ back)
    → HasOwnAddress m (front ++ md ∷ back)
    → (m md).address ≡ md + md_size
    → length (front ++ md ∷ back) < fuel
    → del_loop fuel (m md).address p prev m ≡ some (md, last_or prev front)
unfolding del_loop
del_loop_stops zero prev md p m front back h own address lt = absurd (omega (arith, lt))
del_loop_stops (suc fuel) prev md p m [] back (e, not_null, once, rest) own address lt =
    rw (e, not_null, ==_self (m md).address, del_loop) refl
del_loop_stops (suc fuel) prev md p m (x ∷ front) back (e, not_null, once, rest) (o, own) address
      lt =
    let other : ((m md).address == (m x).address) ≡ false =
      addresses_differ md x (m md).address (m x).address address o
        (ground (arith, has-append x front (md ∷ back), once)) in
    rw (e, not_null, other, del_loop)
      (del_loop_stops fuel x md (m x).next m front back rest own address (omega (arith, lt)))
  where
    addresses_differ :
        (a b c d : ℕ) → c ≡ a + md_size → d ≡ b + md_size → (b == a) ≡ false → (c == d) ≡ false
    addresses_differ a b c d e e' other = ground arith

-- The node in front of another one leads past it.
bypassed :
    (m m' : Memory) (md p x : ℕ) (front back : List ℕ)
    → Linked m p (x ∷ front ++ md ∷ back)
    → (m' (last_or x front)).next ≡ first_or nullptr back
    → ((a : ℕ) → (a == last_or x front) ≡ false → (a == md) ≡ false → (m' a).next ≡ (m a).next)
    → Linked m' (first_or nullptr back) back
    → Linked m' p (x ∷ front ++ back)
bypassed m m' md p x [] back (e, not_null, once, rest) leads same h =
    (e, not_null, ground (arith, once), rw leads h)
bypassed m m' md p x (y ∷ front) back (e, not_null, once, rest) leads same h =
    let apart : (x == last_or y front) ≡ false =
      other_of_has (last_or y front) x (y ∷ front ++ md ∷ back) (has_last y front (md ∷ back))
        once in
    let other : (x == md) ≡ false = ground (arith, has-append x (y ∷ front) (md ∷ back), once) in
    (
      e,
      not_null,
      ground (arith, has-append x (y ∷ front) (md ∷ back), has-append x (y ∷ front) back, once),
      rw (same x apart other) (bypassed m m' md (m x).next y front back rest leads same h),
    )

last_in : (x : ℕ) (f : List ℕ) → has (last_or x f) (x ∷ f) ≡ true
last_in x f = subst (λ l. has (last_or x f) (x ∷ l) ≡ true) (append-nil f) (has_last x f [])

-- What is left of the nodes in front of `md` and behind it: these nodes, with the links of their new
-- neighbours, and `md` without a link, which can be added again.
pub record IsDeleted (md : ℕ) (m : Memory) (front back : List ℕ) (r : Memory × MdList)
    : Type 0 where
  pub others : IsList r.0 r.1 (front ++ back)
  pub prevs : DeletedPrevs md (last_or nullptr front) back m r.0
  pub alone : (r.0 md).next ≡ nullptr

module _ (md : ℕ) (m : Memory) (l : MdList) where
  middle_not_null :
      (p : ℕ) (front back : List ℕ) → Linked m p (front ++ md ∷ back) → (md == nullptr) ≡ false
  middle_not_null p [] back h = h.1
  middle_not_null p (x ∷ front) back (e, not_null, once, rest) =
      middle_not_null (m x).next front back rest

  -- The links of the other nodes do not change when those of `md` are cleared.
  cleared_next :
      (a : ℕ) (m' : Memory)
      → (a == md) ≡ false
      → (set_next md nullptr (set_prev md nullptr m') a).next ≡ (m' a).next
  cleared_next a m' other =
      next-set_next_other md nullptr a (set_prev md nullptr m') other
      ∙ next-set_prev md nullptr a m'

  not_head : (x : ℕ) (f b : List ℕ) → Linked m l.head (x ∷ f ++ md ∷ b) → (md == l.head) ≡ false
  not_head x f b h = rw h.0 (ground (arith, has-append x f (md ∷ b), h.2))

  only : IsList m l (md ∷ []) → IsDeleted md m [] [] (unlink_md (md, nullptr) (m, l))
  unfolding unlink_md bypass
  only is =
      let at_head : (md == l.head) ≡ true = rw is.nodes.0 (==_self md) in
      let at_tail : (l.head == l.tail) ≡ true = rw (is.nodes.0, is.ends) (==_self md) in
      rw (is.nodes.1, at_head, at_tail, unlink_md, bypass)
        (record {
          others = record { nodes = refl; ends = refl };
          prevs = last-DeletedPrevs md m nullptr m (λ a. refl);
          alone = next-set_next md nullptr (set_prev md nullptr m);
        })

  from_head :
      (z : ℕ) (b : List ℕ)
      → IsList m l (md ∷ z ∷ b)
      → IsDeleted md m [] (z ∷ b) (unlink_md (md, nullptr) (m, l))
  unfolding unlink_md bypass
  from_head z b is =
      let m1 = set_prev (m md).next nullptr m in
      let m' = set_next md nullptr (set_prev md nullptr m1) in
      let at_head : (md == l.head) ≡ true = rw is.nodes.0 (==_self md) in
      let not_tail : (l.head == l.tail) ≡ false =
        rw (is.nodes.0, is.ends) (other_of_has (last_or z b) md (z ∷ b) (last_in z b) is.nodes.2) in
      rw (is.nodes.1, at_head, not_tail, unlink_md, bypass)
        (rw is.nodes.0 (record {
          others = record {
            nodes =
                frame m m' (m md).next (z ∷ b)
                  (λ a i.
                    cleared_next a m1 (ne_of_has a md (z ∷ b) i is.nodes.2)
                    ∙ next-set_prev (m md).next nullptr a m)
                  is.nodes.3;
            ends = is.ends;
          };
          prevs =
              followed-DeletedPrevs md m nullptr (m md).next z b m is.nodes.3.0
                (ground (arith, is.nodes.2)) (λ a. refl);
          alone = next-set_next md nullptr (set_prev md nullptr m1);
        }))

  from_tail :
      (x : ℕ) (f : List ℕ)
      → IsList m l (x ∷ f ++ md ∷ [])
      → IsDeleted md m (x ∷ f) [] (unlink_md (md, last_or x f) (m, l))
  unfolding unlink_md bypass
  from_tail x f is =
      let prev = last_or x f in
      let m1 = set_next prev nullptr m in
      let m' = set_next md nullptr (set_prev md nullptr m1) in
      let apart : (prev == md) ≡ false =
        ground (arith, last_apart m l.head x f (md ∷ []) is.nodes) in
      let at_tail : (md == l.tail) ≡ true =
        rw (is.ends, last_or-snoc nullptr md (x ∷ f) []) (==_self md) in
      let not_null = middle_not_null l.head (x ∷ f) [] is.nodes in
      rw (not_null, not_head x f [] is.nodes, at_tail, unlink_md, bypass)
        (record {
          others = record {
            nodes =
                bypassed m m' md l.head x f [] is.nodes
                  (cleared_next prev m1 apart ∙ next-set_next prev nullptr m)
                  (λ a other other'.
                    cleared_next a m1 other' ∙ next-set_next_other prev nullptr a m other)
                  refl;
            ends = rw (append-nil f) refl;
          };
          prevs = last-DeletedPrevs md m prev m1 (prev-set_next prev nullptr m);
          alone = next-set_next md nullptr (set_prev md nullptr m1);
        })

  from_middle :
      (x : ℕ) (f : List ℕ) (z : ℕ) (b : List ℕ)
      → IsList m l (x ∷ f ++ md ∷ z ∷ b)
      → IsDeleted md m (x ∷ f) (z ∷ b) (unlink_md (md, last_or x f) (m, l))
  unfolding unlink_md bypass
  from_middle x f z b is =
      let prev = last_or x f in
      let nxt = (m md).next in
      let m1 = set_next prev nxt m in
      let m2 = set_prev nxt prev m1 in
      let m' = set_next md nullptr (set_prev md nullptr m2) in
      let back = back-Linked m l.head (x ∷ f) (md ∷ z ∷ b) is.nodes in
      let before = last_apart m l.head x f (md ∷ z ∷ b) is.nodes in
      let apart : (prev == md) ≡ false = ground (arith, before) in
      let apart' : has prev (z ∷ b) ≡ false = ground (arith, before) in
      let not_tail : (md == l.tail) ≡ false =
        rw (is.ends, last_or-snoc nullptr md (x ∷ f) (z ∷ b))
          (other_of_has (last_or z b) md (z ∷ b) (last_in z b) back.2) in
      let others : (a : ℕ) → (a == prev) ≡ false → (a == md) ≡ false → (m' a).next ≡ (m a).next =
        λ a other other'.
          cleared_next a m2 other'
          ∙ next-set_prev nxt prev a m1
          ∙ next-set_next_other prev nxt a m other in
      let not_null = middle_not_null l.head (x ∷ f) (z ∷ b) is.nodes in
      rw (not_null, not_head x f (z ∷ b) is.nodes, not_tail, unlink_md, bypass)
        (record {
          others = record {
            nodes =
                bypassed m m' md l.head x f (z ∷ b) is.nodes
                  (cleared_next prev m2 apart
                    ∙ next-set_prev nxt prev prev m1
                    ∙ next-set_next prev nxt m
                    ∙ back.3.0)
                  others
                  (frame m m' z (z ∷ b)
                    (λ a i.
                      others a (ne_of_has a prev (z ∷ b) i apart')
                        (ne_of_has a md (z ∷ b) i back.2))
                    (subst (λ p. Linked m p (z ∷ b)) back.3.0 back.3));
            ends =
                is.ends
                ∙ last_or-snoc nullptr md (x ∷ f) (z ∷ b)
                ∙ sym (last_or-snoc nullptr z (x ∷ f) b);
          };
          prevs =
              followed-DeletedPrevs md m prev nxt z b m1 back.3.0 (ground (arith, back.2))
                (prev-set_next prev nxt m);
          alone = next-set_next md nullptr (set_prev md nullptr m2);
        })

  deleted :
      (front back : List ℕ)
      → IsList m l (front ++ md ∷ back)
      → IsDeleted md m front back (unlink_md (md, last_or nullptr front) (m, l))
  deleted [] [] is = only is
  deleted [] (z ∷ b) is = from_head z b is
  deleted (x ∷ f) [] is = from_tail x f is
  deleted (x ∷ f) (z ∷ b) is = from_middle x f z b is

  -- `delMD` of a node of the list takes out this node and no other, whose order stays; the `next` links
  -- and both ends of the list are right, the node has neither `next` nor `prev` left, the one behind it
  -- gets as `prev` the one in front of it, or NULL, and the loop ends, with fuel beyond the number of
  -- the nodes. The nodes' data stand behind their metadata. No other `prev`, no `next` outside the
  -- list, and nothing else of any metadata changes.
  pub del_md-IsDeleted :
      (fuel : ℕ) (front back : List ℕ)
      → IsList m l (front ++ md ∷ back)
      → HasOwnAddress m (front ++ md ∷ back)
      → length (front ++ md ∷ back) < fuel
      → (r : Memory × MdList) × (del_md fuel md (m, l) ≡ some r)
        × IsDeleted md m front back r
        × Kept md (front ++ md ∷ back) m r.0
  unfolding del_md
  del_md-IsDeleted fuel front back is own lt =
      let stops =
        del_loop_stops fuel nullptr md l.head m front back is.nodes own
          (HasOwnAddress-middle m md front back own) lt in
      (
        unlink_md (md, last_or nullptr front) (m, l),
        rw (first_not_null front back is.nodes, stops, del_md) refl,
        deleted front back is,
        unlink_md-Kept md front (md ∷ back) m l,
      )
    where
      first_not_null :
          (front back : List ℕ) → Linked m l.head (front ++ md ∷ back) → (l.head == nullptr) ≡ false
      first_not_null [] back h = rw h.0 h.1
      first_not_null (x ∷ front) back h = rw h.0 h.1
