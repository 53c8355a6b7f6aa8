-- ===== src/Buddy/Insert.antt =====
-- What `addMD` of OS_HW4_234123/malloc_3.cpp leaves of the list and its links.
use os.Prelude.{
  ℕ, ◌<◌, ◌≡◌, refl, sym, subst, ◌∙◌, true, false, some, List, [], ◌∷◌, ◌++◌, arith, length, ◌==◌,
  ==_self,
}
use os.Buddy.Lists.{nullptr, Memory, set_next, set_prev, MdList, link_md, add_md}
use os.Buddy.Kept.{next-set_prev, next-set_next, next-set_next_other, Kept, Kept-refl, link_md-Kept}
use os.Buddy.Prevs.{PrevsOfAdded, link_md-AddedPrevs}
use os.Buddy.Order.{
  has, first_or, last_or, Linked, insert_md, frame, back-Linked, has-append, ne_of_has,
  other_of_has, has_last, last_apart, relinked, add_loop-Stop,
}

-- The list and its ends are those of the nodes.
pub record IsList (m : Memory) (l : MdList) (xs : List ℕ) : Type 0 where
  pub nodes : Linked m l.head xs
  pub ends : l.tail ≡ last_or nullptr xs

pub last_or-snoc : (d md : ℕ) (xs ys : List ℕ) → last_or d (xs ++ md ∷ ys) ≡ last_or md ys
last_or-snoc d md [] ys = refl
last_or-snoc d md (x ∷ xs) ys = last_or-snoc x md xs ys

module _ (md : ℕ) (m : Memory) (l : MdList) (not_null : (md == nullptr) ≡ false)
    (fresh : (m md).next ≡ nullptr) where
  at_head :
      (z : ℕ) (b : List ℕ)
      → IsList m l (z ∷ b)
      → has md (z ∷ b) ≡ false
      → IsList (link_md md (z, nullptr) (m, l)).0 (link_md md (z, nullptr) (m, l)).1 (md ∷ z ∷ b)
  unfolding link_md
  at_head z b is out =
      let is_head : (z == l.head) ≡ true = rw is.nodes.0 (==_self z) in
      rw (is.nodes.1, is_head)
        (record {
          nodes = (
            refl,
            not_null,
            out,
            rw (next-set_next md l.head m) (
                frame m (set_next md l.head m) l.head (z ∷ b)
                  (λ a i. next-set_next_other md l.head a m (ne_of_has a md (z ∷ b) i out))
                  is.nodes),
          );
          ends = is.ends;
        })

  at_tail :
      (x : ℕ) (f : List ℕ)
      → Linked m l.head (x ∷ f ++ [])
      → has md (x ∷ f ++ []) ≡ false
      → IsList
          (link_md md (nullptr, last_or x f) (m, l)).0
          (link_md md (nullptr, last_or x f) (m, l)).1
          (x ∷ f ++ md ∷ [])
  unfolding link_md
  at_tail x f h out =
      let prev = last_or x f in
      let m' = set_prev md prev (set_next prev md m) in
      let apart : (md == prev) ≡ false = other_of_has prev md (x ∷ f ++ []) (has_last x f []) out in
      record {
        nodes =
            relinked m m' md l.head x f [] h out
              (next-set_prev md prev prev (set_next prev md m) ∙ next-set_next prev md m)
              (λ a other other'.
                next-set_prev md prev a (set_next prev md m)
                ∙ next-set_next_other prev md a m other)
              (
                refl,
                not_null,
                refl,
                next-set_prev md prev md (set_next prev md m)
                    ∙ next-set_next_other prev md md m apart
                    ∙ fresh,
              );
        ends = sym (last_or-snoc nullptr md (x ∷ f) []);
      }

  at_middle :
      (x : ℕ) (f : List ℕ) (z : ℕ) (b : List ℕ)
      → IsList m l (x ∷ f ++ z ∷ b)
      → has md (x ∷ f ++ z ∷ b) ≡ false
      → IsList
          (link_md md (z, last_or x f) (m, l)).0
          (link_md md (z, last_or x f) (m, l)).1
          (x ∷ f ++ md ∷ z ∷ b)
  unfolding link_md
  at_middle x f z b is out =
      let prev = last_or x f in
      let m1 = set_next prev md m in
      let m2 = set_prev md prev m1 in
      let m3 = set_next md z m2 in
      let m' = set_prev z md m3 in
      let back = back-Linked m l.head (x ∷ f) (z ∷ b) is.nodes in
      let out_back : has md (z ∷ b) ≡ false = ground (arith, has-append md (x ∷ f) (z ∷ b), out) in
      let apart : (md == prev) ≡ false =
        other_of_has prev md (x ∷ f ++ z ∷ b) (has_last x f (z ∷ b)) out in
      let apart' : (prev == md) ≡ false =
        ne_of_has prev md (x ∷ f ++ z ∷ b) (has_last x f (z ∷ b)) out in
      let not_head : (z == l.head) ≡ false = rw is.nodes.0 (other_first x z f b is.nodes.2) in
      let others : (a : ℕ) → (a == prev) ≡ false → (a == md) ≡ false → (m' a).next ≡ (m a).next =
        λ a other other'.
          next-set_prev z md a m3
          ∙ next-set_next_other md z a m2 other'
          ∙ next-set_prev md prev a m1
          ∙ next-set_next_other prev md a m other in
      rw (back.1, not_head)
        (record {
          nodes =
              relinked m m' md l.head x f (z ∷ b) is.nodes out
                (next-set_prev z md prev m3
                  ∙ next-set_next_other md z prev m2 apart'
                  ∙ next-set_prev md prev prev m1
                  ∙ next-set_next prev md m)
                others
                (
                  refl,
                  not_null,
                  out_back,
                  rw (next-set_prev z md md m3 ∙ next-set_next md z m2) (
                      frame m m' z (z ∷ b)
                        (λ a i.
                          others a
                            (ne_of_has a prev (z ∷ b) i (last_apart m l.head x f (z ∷ b) is.nodes))
                            (ne_of_has a md (z ∷ b) i out_back))
                        back),
                );
          ends =
              is.ends
              ∙ last_or-snoc nullptr z (x ∷ f) b
              ∙ sym (last_or-snoc nullptr md (x ∷ f) (z ∷ b));
        })
    where
      other_first : (x z : ℕ) (f b : List ℕ) → has x (f ++ z ∷ b) ≡ false → (z == x) ≡ false
      other_first x z f b h = ground (arith, has-append x f (z ∷ b), h)

  linked :
      (front back : List ℕ) (x : ℕ) (xs : List ℕ)
      → x ∷ xs ≡ front ++ back
      → IsList m l (front ++ back)
      → has md (front ++ back) ≡ false
      → IsList
          (link_md md (first_or nullptr back, last_or nullptr front) (m, l)).0
          (link_md md (first_or nullptr back, last_or nullptr front) (m, l)).1
          (front ++ md ∷ back)
  linked [] [] x xs e is out = ground arith
  linked [] (z ∷ b) x xs e is out = at_head z b is out
  linked (y ∷ f) [] x xs e is out = at_tail y f is.nodes out
  linked (y ∷ f) (z ∷ b) x xs e is out = at_middle y f z b is out

  -- `addMD` of a node that is in no list puts it in front of the first node of a greater address, or at
  -- the end, and leaves the other nodes in their order; the `next` links and both ends of the list are
  -- right, and the loop ends, with fuel beyond the number of the nodes. Behind another node, `md` gets
  -- that one as `prev`, and the node behind `md` gets `md`; in front of the old head no `prev` is
  -- written, so that the old head's stays. No other `prev`, no `next` outside the list, and nothing
  -- else of any metadata changes.
  pub add_md-IsList :
      (fuel : ℕ) (xs : List ℕ)
      → IsList m l xs
      → length xs < fuel
      → has md xs ≡ false
      → (m' : Memory) × (l' : MdList) × (add_md fuel md (m, l) ≡ some (m', l'))
        × IsList m' l' (insert_md md m xs)
        × Kept md xs m m'
        × PrevsOfAdded md xs m m'
  unfolding add_md
  add_md-IsList fuel [] is lt out = (
    m,
    record { head = md; tail = md },
    rw is.nodes refl,
    record { nodes = (refl, not_null, refl, fresh); ends = refl },
    Kept-refl md [] m,
    record { front = []; back = []; whole = refl; inserted = refl; prevs = λ a. refl },
  )
  add_md-IsList fuel (x ∷ xs) is lt out =
      let r = add_loop-Stop fuel nullptr md l.head m (x ∷ xs) is.nodes lt in
      let at : ℕ × ℕ = (first_or nullptr r.back, last_or nullptr r.front) in
      (
        (link_md md at (m, l)).0,
        (link_md md at (m, l)).1,
        rw (head_not_null, r.stops, add_md) refl,
        rw r.inserted (
            linked r.front r.back x xs r.whole (subst (λ ys. IsList m l ys) r.whole is)
              (subst (λ ys. has md ys ≡ false) r.whole out)),
        subst (λ ys. Kept md ys m (link_md md at (m, l)).0) (sym r.whole)
            (link_md-Kept md (first_or nullptr r.back) r.front r.back m l),
        record {
          front = r.front;
          back = r.back;
          whole = r.whole;
          inserted = r.inserted;
          prevs =
              link_md-AddedPrevs md m l r.front r.back x xs r.whole
                (subst (λ ys. Linked m l.head ys) r.whole is.nodes)
                (subst (λ ys. has md ys ≡ false) r.whole out);
        },
      )
    where
      head_not_null : (l.head == nullptr) ≡ false
      head_not_null = rw is.nodes.0 is.nodes.1
