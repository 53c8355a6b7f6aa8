-- ===== src/Buddy/Split.antt =====
-- `splitBlocks_ChallengeZero` of OS_HW4_234123/malloc_3.cpp: a block in no list is split, and its
-- first part is put in a list.
use os.Prelude.{
  ℕ, ◌+◌, ◌≤◌, ◌<◌, ◌≡◌, refl, sym, ap, subst, ◌∙◌, ◌⊎◌, Bool, true, false, some, arith, length,
  ◌==◌, ==_self,
}
use os.Buddy.Lists.{nullptr, MallocMetadata, Memory, md_size, store, meta_data_init}
use os.Buddy.{State, max_order, blocks_sizes, add_block, keep_first}
use os.Buddy.Order.{has, ne_of_has}
use os.Buddy.Kept.{SameBlock, SameBlock-trans}
use os.Buddy.Heap.{Orders, IsBlock, IsHeap, IsHole, inside_out, store-IsHeap, size_positive}
use os.Buddy.HeapLists.{IsAdded, add_md-IsAdded}

-- A new block's metadata.
abbrev pub new_md : (i a : ℕ) (is_free : Bool) → MallocMetadata
new_md i a is_free = record {
  size = blocks_sizes i;
  is_free = is_free;
  next = nullptr;
  prev = nullptr;
  address = a + md_size;
  is_mmap = false;
}

-- Between `s` and `s'` the blocks in the lists stay in them, with their metadata, and each list grows
-- by at most `n`.
pub record Grows (n : ℕ) (s s' : State) (xs ys : Orders) : Type 0 where
  pub stay : (j a : ℕ) → has a (xs j) ≡ true → has a (ys j) ≡ true
  pub kept : (j a : ℕ) → has a (xs j) ≡ true → SameBlock (s.memory a) (s'.memory a)
  pub started : s'.first_malloc ≡ s.first_malloc
  pub lengths : (j : ℕ) → length (ys j) ≤ length (xs j) + n

pub Grows-trans :
    (n k : ℕ) (s s' s'' : State) (xs ys zs : Orders)
    → Grows n s s' xs ys
    → Grows k s' s'' ys zs
    → Grows (n + k) s s'' xs zs
Grows-trans n k s s' s'' xs ys zs g h = record {
  stay = λ j a i. h.stay j a (g.stay j a i);
  kept = λ j a i. SameBlock-trans _ _ _ (g.kept j a i) (h.kept j a (g.stay j a i));
  started = h.started ∙ g.started;
  lengths = λ j. omega (arith, g.lengths j, h.lengths j);
}

meta_data_init_some :
    (p size adrs : ℕ) (is_fr : Bool) (m : Memory)
    → (p == nullptr) ≡ false
    → meta_data_init p size is_fr nullptr nullptr adrs m
      ≡ store p
          (record {
            size = size;
            is_free = is_fr;
            next = nullptr;
            prev = nullptr;
            address = adrs;
            is_mmap = false;
          })
          m
unfolding meta_data_init
meta_data_init_some p size adrs is_fr m h = rw h refl

stored : (p : ℕ) (md : MallocMetadata) (m : Memory) → store p md m p ≡ md
unfolding store
stored p md m = rw (==_self p) refl

stored_other :
    (p a : ℕ) (md : MallocMetadata) (m : Memory) → (a == p) ≡ false → store p md m a ≡ m a
unfolding store
stored_other p a md m other = rw other refl

-- A hole in which a new block's metadata are written at `p`, before it is added.
written-IsHole :
    (i p : ℕ) (is_free : Bool) (s : State) (xs : Orders)
    → IsHole i p s xs
    → IsHole i p (record s { memory = store p (new_md i p is_free) s.memory }) xs
written-IsHole i p is_free s xs is = record {
  heap =
      store-IsHeap p (new_md i p is_free) s xs
        (λ j. inside_out i p p j s xs is (omega arith) (omega (arith, size_positive i))) is.heap;
  hole = is.hole;
  not_null = is.not_null;
}

-- The block in the hole is written and added to the list of its order.
pub record IsFilled (i p : ℕ) (is_free : Bool) (s s' : State) (xs ys : Orders) : Type 0 where
  pub heap : IsHeap s' ys
  pub members : (j a : ℕ) → has a (ys j) ≡ true → (has a (xs j) ≡ true) ⊎ ((j ≡ i) × (a ≡ p))
  pub own : has p (ys i) ≡ true
  pub free_is : (s'.memory p).is_free ≡ is_free
  pub grows : Grows 1 s s' xs ys
  pub elsewhere : (a : ℕ) → (a == p) ≡ false → SameBlock (s.memory a) (s'.memory a)

filled :
    (i p : ℕ) (is_free : Bool) (s s' : State) (xs ys : Orders)
    → IsHole i p s xs
    → IsAdded i p (record s { memory = store p (new_md i p is_free) s.memory }) s' xs ys
    → IsFilled i p is_free s s' xs ys
filled i p is_free s s' xs ys is added = record {
  heap = added.heap;
  members = added.members;
  own = added.own;
  free_is = (added.same p).free_same ∙ ap (λ d. d.is_free) (stored p (new_md i p is_free) s.memory);
  grows = record {
    stay = added.old;
    kept = λ j a h. same_elsewhere a (ne_of_has a p (xs j) h (out j));
    started = added.started;
    lengths = λ j. omega (arith, added.longer j);
  };
  elsewhere = same_elsewhere;
}
  where
    out : (j : ℕ) → has p (xs j) ≡ false
    out j = inside_out i p p j s xs is (omega arith) (omega (arith, size_positive i))

    same_elsewhere : (a : ℕ) → (a == p) ≡ false → SameBlock (s.memory a) (s'.memory a)
    same_elsewhere a other =
        subst (λ d. SameBlock d (s'.memory a))
          (stored_other p a (new_md i p is_free) s.memory other) (added.same a)

pub add_block-IsFilled :
    (fuel i p : ℕ) (s : State) (xs : Orders)
    → IsHole i p s xs
    → i ≤ max_order
    → length (xs i) < fuel
    → (s' : State) × (ys : Orders) × (add_block fuel p i s ≡ some s') × IsFilled i p true s s' xs ys
unfolding add_block
add_block-IsFilled fuel i p s xs is order lt =
    let written = written-IsHole i p true s xs is in
    let own = stored p (new_md i p true) s.memory in
    let (s', ys, e, added) =
      add_md-IsAdded fuel i p (record s { memory = store p (new_md i p true) s.memory }) xs written
        (subst (IsBlock i p) (sym own)
          (record { size_is = refl; address_is = refl; mmap_is = refl }))
        (ap (λ d. d.next) own) order lt in
    (
      s',
      ys,
      rw (meta_data_init_some p (blocks_sizes i) (p + md_size) true s.memory is.not_null) e,
      filled i p true s s' xs ys is added,
    )

-- The first part, whose metadata still have the address of its data.
pub keep_first-IsFilled :
    (fuel i p : ℕ) (s : State) (xs : Orders)
    → IsHole i p s xs
    → (s.memory p).address ≡ p + md_size
    → i ≤ max_order
    → length (xs i) < fuel
    → (s' : State) × (ys : Orders) × (keep_first fuel p i s ≡ some s')
      × IsFilled i p false s s' xs ys
unfolding keep_first
keep_first-IsFilled fuel i p s xs is address order lt =
    let written = written-IsHole i p false s xs is in
    let own = stored p (new_md i p false) s.memory in
    let (s', ys, e, added) =
      add_md-IsAdded fuel i p (record s { memory = store p (new_md i p false) s.memory }) xs written
        (subst (IsBlock i p) (sym own)
          (record { size_is = refl; address_is = refl; mmap_is = refl }))
        (ap (λ d. d.next) own) order lt in
    (
      s',
      ys,
      rw (address, meta_data_init_some p (blocks_sizes i) (p + md_size) false s.memory is.not_null)
          e,
      filled i p false s s' xs ys is added,
    )
