-- ===== src/Buddy/HeapLists.antt =====
-- `addMD` and `delMD` of OS_HW4_234123/malloc_3.cpp on the list of one order, against all lists.
use os.Prelude.{
  ℕ, suc, ◌≤◌, ◌<◌, ◌≡◌, refl, sym, subst, ◌∙◌, ◌⊎◌, inl, inr, true, false, ◌||◌, Option, some,
  List, [], ◌∷◌, arith, length, ◌==◌, ==_iff, ==_self, Bool-cases, le→ltb,
}
use os.Buddy.Lists.{nullptr, MallocMetadata, Memory, MdList, add_md}
use os.Buddy.{State, max_order, put_list, on_list}
use os.Buddy.Order.{has, Linked, frame, insert_md}
use os.Buddy.Kept.{SameBlock, SameBlocks, Kept}
use os.Buddy.Insert.{IsList, add_md-IsList}
use os.Buddy.Heap.{
  Orders, replaced, replaced_here, replaced_other, IsBlock, Separate, IsHeap, IsHole, node_not_null,
  other_order, moved-IsBlock, size_positive,
}

has-insert_md :
    (a md : ℕ) (m : Memory) (xs : List ℕ) → has a (insert_md md m xs) ≡ ((a == md) || has a xs)
has-insert_md a md m [] = refl
has-insert_md a md m (x ∷ xs) = ground (arith, has-insert_md a md m xs)

length-insert_md :
    (md : ℕ) (m : Memory) (xs : List ℕ) → length (insert_md md m xs) ≡ suc (length xs)
length-insert_md md m [] = refl
length-insert_md md m (x ∷ xs) = ground (arith, length-insert_md md m xs)

-- The lists of the other orders behind an operation on one.
other_lists :
    (i j md : ℕ) (s : State) (xs : Orders) (m : Memory)
    → IsHeap s xs
    → Kept md (xs i) s.memory m
    → (j == i) ≡ false
    → has md (xs j) ≡ false
    → Linked m (s.md_list_arr j).head (xs j)
other_lists i j md s xs m is kept other out =
    frame s.memory m _ (xs j)
      (λ a here.
        kept.links_same a (node_not_null s.memory _ a (xs j) (is.lists j).nodes here)
          (other_order s xs i j a is other here) (ne a md (xs j) here out))
      (is.lists j).nodes
  where
    ne : (a b : ℕ) (ys : List ℕ) → has a ys ≡ true → has b ys ≡ false → (a == b) ≡ false
    ne a b [] i out = cc
    ne a b (y ∷ ys) i out = ground (arith, ne a b ys)

-- The lists behind an operation on one.
pub all_lists :
    (i md : ℕ) (s : State) (xs : Orders) (m : Memory) (l : MdList) (ys : List ℕ)
    → IsHeap s xs
    → Kept md (xs i) s.memory m
    → IsList m l ys
    → ((j : ℕ) → (j == i) ≡ false → has md (xs j) ≡ false)
    → (j : ℕ) → IsList m ((put_list i s (m, l)).md_list_arr j) (replaced i ys xs j)
all_lists i md s xs m l ys is kept new out j = elim (Bool-cases (j == i)) [
  | inl here ↦ rw here new
  | inr other ↦ rw other (record {
    nodes = other_lists i j md s xs m is kept other (out j other);
    ends = (is.lists j).ends;
  })
]

pub kept-IsBlock :
    (j a : ℕ) (md md' : MallocMetadata) → SameBlock md md' → IsBlock j a md → IsBlock j a md'
kept-IsBlock j a md md' same is =
    moved-IsBlock j a md md' is same.size_same same.address_same same.mmap_same

-- The result of an operation on the list of an order.
pub on_list-some :
    (i : ℕ) (f : Memory × MdList → Option (Memory × MdList)) (s : State) (r : Memory × MdList)
    → i ≤ max_order
    → f (s.memory, s.md_list_arr i) ≡ some r
    → on_list i f s ≡ some (put_list i s r)
unfolding on_list
on_list-some i f s r le e = rw (e, le→ltb max_order i le, on_list)

-- The block in the hole has been added to the list of its order.
pub record IsAdded (i md : ℕ) (s s' : State) (xs ys : Orders) : Type 0 where
  pub heap : IsHeap s' ys
  pub members : (j a : ℕ) → has a (ys j) ≡ true → (has a (xs j) ≡ true) ⊎ ((j ≡ i) × (a ≡ md))
  pub old : (j a : ℕ) → has a (xs j) ≡ true → has a (ys j) ≡ true
  pub own : has md (ys i) ≡ true
  pub same : SameBlocks s.memory s'.memory
  pub started : s'.first_malloc ≡ s.first_malloc
  pub longer : (j : ℕ) → length (ys j) ≤ suc (length (xs j))

module _ (fuel i md : ℕ) (s : State) (xs : Orders) (is : IsHole i md s xs) where
  hole_out : (j : ℕ) → has md (xs j) ≡ false
  hole_out j = elim (Bool-cases (has md (xs j))) [
    | inr out ↦ out
    | inl node ↦ absurd (elim (is.hole j md node) [
      | inl le ↦ omega (arith, le, size_positive i)
      | inr le ↦ omega (arith, le, size_positive j)
    ])
  ]

  insert_order : Orders
  insert_order = replaced i (insert_md md s.memory (xs i)) xs

  inserted_members :
      (j a : ℕ) → has a (insert_order j) ≡ true → (has a (xs j) ≡ true) ⊎ ((j ≡ i) × (a ≡ md))
  unfolding insert_order
  inserted_members j a h = elim (Bool-cases (j == i)) [
    | inl here ↦
        let e : j ≡ i = (==_iff j i).0 here in
        let h' = subst (λ l. has a l ≡ true) (replaced_here i j _ xs here) h in
        elim (Bool-cases (a == md)) [
          | inl own ↦ inr (e, (==_iff a md).0 own)
          | inr other ↦ inl (rw e (ground (arith, has-insert_md a md s.memory (xs i), h', other)))
        ]
    | inr other ↦ inl (subst (λ l. has a l ≡ true) (replaced_other i j _ xs other) h)
  ]

  inserted_old : (j a : ℕ) → has a (xs j) ≡ true → has a (insert_order j) ≡ true
  unfolding insert_order
  inserted_old j a h = elim (Bool-cases (j == i)) [
    | inl here ↦
        let e : j ≡ i = (==_iff j i).0 here in
        let h' : has a (xs i) ≡ true = subst (λ k. has a (xs k) ≡ true) e h in
        subst (λ l. has a l ≡ true) (sym (replaced_here i j _ xs here))
          (ground (arith, has-insert_md a md s.memory (xs i), h'))
    | inr other ↦ subst (λ l. has a l ≡ true) (sym (replaced_other i j _ xs other)) h
  ]

  inserted_own : has md (insert_order i) ≡ true
  unfolding insert_order
  inserted_own =
      subst (λ l. has md l ≡ true) (sym (replaced_here i i _ xs (==_self i)))
        (ground (arith, has-insert_md md md s.memory (xs i), ==_self md))

  inserted_longer : (j : ℕ) → length (insert_order j) ≤ suc (length (xs j))
  unfolding insert_order
  inserted_longer j = elim (Bool-cases (j == i)) [
    | inl here ↦
        let e : j ≡ i = (==_iff j i).0 here in
        subst (λ l. length l ≤ suc (length (xs j))) (sym (replaced_here i j _ xs here))
          (rw e (omega (arith, length-insert_md md s.memory (xs i))))
    | inr other ↦
        subst (λ l. length l ≤ suc (length (xs j))) (sym (replaced_other i j _ xs other))
          (omega arith)
  ]

  flip : (i a j b : ℕ) → Separate i a j b → Separate j b i a
  flip i a j b (inl le) = inr le
  flip i a j b (inr le) = inl le

  inserted_apart :
      (j k a b : ℕ)
      → (has a (xs j) ≡ true) ⊎ ((j ≡ i) × (a ≡ md))
      → (has b (xs k) ≡ true) ⊎ ((k ≡ i) × (b ≡ md))
      → ((j ≡ k) × (a ≡ b)) ⊎ Separate j a k b
  inserted_apart j k a b (inl h) (inl h') = is.heap.apart j k a b h h'
  inserted_apart j k a b (inl h) (inr (e, e')) = rw (e, e') (inr (flip i md j a (is.hole j a h)))
  inserted_apart j k a b (inr (e, e')) (inl h) = rw (e, e') (inr (is.hole k b h))
  inserted_apart j k a b (inr (e, e')) (inr (d, d')) = inl (e ∙ sym d, e' ∙ sym d')

  inserted-IsBlock :
      (m : Memory) (j a : ℕ)
      → SameBlocks s.memory m
      → IsBlock i md (s.memory md)
      → (has a (xs j) ≡ true) ⊎ ((j ≡ i) × (a ≡ md))
      → IsBlock j a (m a)
  inserted-IsBlock m j a same own (inl h) =
      kept-IsBlock j a (s.memory a) (m a) (same a) (is.heap.blocks j a h)
  inserted-IsBlock m j a same own (inr (e, e')) =
      rw (e, e') (kept-IsBlock i md (s.memory md) (m md) (same md) own)

  -- The block in the hole is added to the list of its order.
  pub add_md-IsAdded :
      IsBlock i md (s.memory md)
      → (s.memory md).next ≡ nullptr
      → i ≤ max_order
      → length (xs i) < fuel
      → (s' : State) × (ys : Orders) × (on_list i (add_md fuel md) s ≡ some s')
        × IsAdded i md s s' xs ys
  unfolding insert_order
  add_md-IsAdded own alone order lt =
      let (m', l', e, new, kept, prevs) =
        add_md-IsList md s.memory (s.md_list_arr i) is.not_null alone fuel (xs i) (is.heap.lists i)
          lt (hole_out i) in
      (
        put_list i s (m', l'),
        insert_order,
        on_list-some i (add_md fuel md) s (m', l') order e,
        record {
          heap = record {
            lists = all_lists i md s xs m' l' _ is.heap kept new (λ j other. hole_out j);
            blocks = λ j a h. inserted-IsBlock m' j a kept.blocks_same own (inserted_members j a h);
            apart = λ j k a b h h'.
                inserted_apart j k a b (inserted_members j a h) (inserted_members k b h');
          };
          members = inserted_members;
          old = inserted_old;
          own = inserted_own;
          same = kept.blocks_same;
          started = refl;
          longer = inserted_longer;
        },
      )
