-- ===== src/Buddy/HeapDelete.antt =====
-- `delMD` of OS_HW4_234123/malloc_3.cpp on the list of one order, against all lists.
use os.Prelude.{
  ℕ, ◌+◌, ◌≤◌, ◌<◌, ◌≡◌, refl, sym, ap, subst, ◌∙◌, inl, inr, true, false, some, List, [], ◌∷◌,
  ◌++◌, arith, length, ◌==◌, ==_iff, ==_self, Bool-cases,
}
use mathlib.Core.Bool.{true≢false}
use os.Buddy.Lists.{nullptr, Memory, md_size, del_md}
use os.Buddy.{State, max_order, put_list, on_list}
use os.Buddy.Order.{has, Linked, has-append, ne_of_has}
use os.Buddy.Kept.{SameBlocks, Kept}
use os.Buddy.Insert.{IsList}
use os.Buddy.Delete.{HasOwnAddress, del_md-IsDeleted}
use os.Buddy.Heap.{
  Orders, replaced, replaced_here, replaced_other, Separate, IsHeap, IsHole, node_not_null,
  other_order,
}
use os.Buddy.HeapLists.{all_lists, kept-IsBlock, on_list-some}

-- The block has been taken from the list of its order, and what it covered overlaps no other.
pub record IsRemoved (i md : ℕ) (s s' : State) (xs ys : Orders) : Type 0 where
  pub hole : IsHole i md s' ys
  pub members : (j a : ℕ) → has a (ys j) ≡ true → (has a (xs j) ≡ true) × ((a == md) ≡ false)
  pub others : (j a : ℕ) → has a (xs j) ≡ true → (a == md) ≡ false → has a (ys j) ≡ true
  pub alone : (s'.memory md).next ≡ nullptr
  pub same : SameBlocks s.memory s'.memory
  pub links_same :
      (a : ℕ)
      → (a == nullptr) ≡ false
      → has a (xs i) ≡ false
      → (a == md) ≡ false
      → (s'.memory a).next ≡ (s.memory a).next
  pub started : s'.first_malloc ≡ s.first_malloc
  pub shorter : (j : ℕ) → length (ys j) ≤ length (xs j)

-- A list around one of its nodes.
record Around (md : ℕ) (xs : List ℕ) : Type 0 where
  front : List ℕ
  back : List ℕ
  whole : xs ≡ front ++ md ∷ back

node-Around : (md : ℕ) (xs : List ℕ) → has md xs ≡ true → Around md xs
node-Around md [] h = ground arith
node-Around md (x ∷ xs) h = elim (Bool-cases (md == x)) [
  | inl here ↦ record { front = []; back = xs; whole = rw ((==_iff md x).0 here) refl }
  | inr other ↦
      let r = node-Around md xs (ground (arith, h, other)) in
      record { front = x ∷ r.front; back = r.back; whole = ap (λ l. x ∷ l) r.whole }
]

own_addresses :
    (m : Memory) (xs : List ℕ)
    → ((a : ℕ) → has a xs ≡ true → (m a).address ≡ a + md_size)
    → HasOwnAddress m xs
own_addresses m [] h = tt
own_addresses m (x ∷ xs) h =
    (h x (ground (arith, ==_self x)), own_addresses m xs (λ a i. h a (ground (arith, i))))

once_removed :
    (m : Memory) (md p : ℕ) (front back : List ℕ)
    → Linked m p (front ++ md ∷ back)
    → has md (front ++ back) ≡ false
once_removed m md p [] back h = h.2
once_removed m md p (x ∷ front) back (e, not_null, once, rest) =
    let r = once_removed m md (m x).next front back rest in
    ground (arith, has-append x front (md ∷ back), once, r)

removed_length :
    (md : ℕ) (front back : List ℕ) → length (front ++ back) ≤ length (front ++ md ∷ back)
removed_length md [] back = omega arith
removed_length md (x ∷ front) back = omega (arith, removed_length md front back)

has_removed :
    (a md : ℕ) (front back : List ℕ)
    → (a == md) ≡ false
    → has a (front ++ back) ≡ has a (front ++ md ∷ back)
has_removed a md front back other =
    ground (arith, has-append a front back, has-append a front (md ∷ back), other)

module _ (i md : ℕ) (s : State) (xs : Orders) (front back : List ℕ) (is : IsHeap s xs)
    (whole : xs i ≡ front ++ md ∷ back) where
  remove_order : Orders
  remove_order = replaced i (front ++ back) xs

  removed_out : has md (front ++ back) ≡ false
  removed_out =
      once_removed s.memory md _ front back
        (subst (λ l. Linked s.memory (s.md_list_arr i).head l) whole (is.lists i).nodes)

  member_here : has md (xs i) ≡ true
  member_here = rw whole (ground (arith, has-append md front (md ∷ back), ==_self md))

  md_elsewhere : (j : ℕ) → (j == i) ≡ false → has md (xs j) ≡ false
  md_elsewhere j other = elim (Bool-cases (has md (xs j))) [
    | inr out ↦ out
    | inl both ↦ absurd (true≢false (sym member_here ∙ other_order s xs i j md is other both))
  ]

  removed_members :
      (j a : ℕ) → has a (remove_order j) ≡ true → (has a (xs j) ≡ true) × ((a == md) ≡ false)
  unfolding remove_order
  removed_members j a h = elim (Bool-cases (j == i)) [
    | inl here ↦
        let h' = subst (λ l. has a l ≡ true) (replaced_here i j _ xs here) h in
        let other = ne_of_has a md (front ++ back) h' removed_out in
        (rw ((==_iff j i).0 here) (rw whole (sym (has_removed a md front back other) ∙ h')), other)
    | inr other ↦
        let h' = subst (λ l. has a l ≡ true) (replaced_other i j _ xs other) h in
        (h', ne_of_has a md (xs j) h' (md_elsewhere j other))
  ]

  removed_others :
      (j a : ℕ) → has a (xs j) ≡ true → (a == md) ≡ false → has a (remove_order j) ≡ true
  unfolding remove_order
  removed_others j a h not_md = elim (Bool-cases (j == i)) [
    | inl here ↦
        let h' : has a (xs i) ≡ true = subst (λ k. has a (xs k) ≡ true) ((==_iff j i).0 here) h in
        subst (λ l. has a l ≡ true) (sym (replaced_here i j _ xs here))
          (has_removed a md front back not_md ∙ subst (λ l. has a l ≡ true) whole h')
    | inr other ↦ subst (λ l. has a l ≡ true) (sym (replaced_other i j _ xs other)) h
  ]

  removed_shorter : (j : ℕ) → length (remove_order j) ≤ length (xs j)
  unfolding remove_order
  removed_shorter j = elim (Bool-cases (j == i)) [
    | inl here ↦
        subst (λ l. length l ≤ length (xs j)) (sym (replaced_here i j _ xs here))
          (rw ((==_iff j i).0 here) (rw whole (removed_length md front back)))
    | inr other ↦
        subst (λ l. length l ≤ length (xs j)) (sym (replaced_other i j _ xs other)) (omega arith)
  ]

  removed_hole : (j b : ℕ) → has b (remove_order j) ≡ true → Separate i md j b
  removed_hole j b h =
      let (h', other) = removed_members j b h in
      elim (is.apart i j md b member_here h') [
        | inl same ↦ ground (arith, same.1, other)
        | inr separate ↦ separate
      ]

  del_md-IsRemoved :
      (fuel : ℕ)
      → i ≤ max_order
      → length (xs i) < fuel
      → (s' : State) × (ys : Orders) × (on_list i (del_md fuel md) s ≡ some s')
        × IsRemoved i md s s' xs ys
  unfolding remove_order
  del_md-IsRemoved fuel order lt =
      let list = subst (λ l. IsList s.memory (s.md_list_arr i) l) whole (is.lists i) in
      let own =
        subst (HasOwnAddress s.memory) whole
          (own_addresses s.memory (xs i) (λ a h. (is.blocks i a h).address_is)) in
      let (r, e, deleted, kept) =
        del_md-IsDeleted md s.memory (s.md_list_arr i) fuel front back list own
          (subst (λ l. length l < fuel) whole lt) in
      let kept' = subst (λ l. Kept md l s.memory r.0) (sym whole) kept in
      (
        put_list i s r,
        remove_order,
        on_list-some i (del_md fuel md) s r order e,
        record {
          hole = record {
            heap = record {
              lists = all_lists i md s xs r.0 r.1 _ is kept' deleted.others md_elsewhere;
              blocks = λ j a h.
                  kept-IsBlock j a (s.memory a) (r.0 a) (kept.blocks_same a)
                    (is.blocks j a (removed_members j a h).0);
              apart = λ j k a b h h'.
                  is.apart j k a b (removed_members j a h).0 (removed_members k b h').0;
            };
            hole = removed_hole;
            not_null = node_not_null s.memory _ md (xs i) (is.lists i).nodes member_here;
          };
          members = removed_members;
          others = removed_others;
          alone = deleted.alone;
          same = kept.blocks_same;
          links_same = kept'.links_same;
          started = refl;
          shorter = removed_shorter;
        },
      )

-- The block of a list is taken out of it.
pub del_md-Removes :
    (fuel i md : ℕ) (s : State) (xs : Orders)
    → IsHeap s xs
    → has md (xs i) ≡ true
    → i ≤ max_order
    → length (xs i) < fuel
    → (s' : State) × (ys : Orders) × (on_list i (del_md fuel md) s ≡ some s')
      × IsRemoved i md s s' xs ys
del_md-Removes fuel i md s xs is member order lt =
    let r = node-Around md (xs i) member in
    del_md-IsRemoved i md s xs r.front r.back is r.whole fuel order lt
