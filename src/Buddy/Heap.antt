-- ===== src/Buddy/Heap.antt =====
-- The blocks of OS_HW4_234123/malloc_3.cpp: the lists of all orders, and a part of the memory that is
-- in no list.
use os.Prelude.{
  ℕ, zero, suc, ◌+◌, ◌*◌, ◌^◌, ◌≤◌, ◌<◌, ◌≡◌, refl, sym, ap, subst, ◌∙◌, ◌⊎◌, inl, inr, true, false,
  List, [], ◌∷◌, arith, ◌==◌, ==_iff, Bool-cases, if◌then◌else◌,
}
use native.Mathlib.Nat.{pow-suc, mul_comm}
use os.Buddy.Lists.{nullptr, MallocMetadata, Memory, md_size, store}
use os.Buddy.{State, blocks_sizes}
use os.Buddy.Order.{has, Linked, frame, ne_of_has}
use os.Buddy.Insert.{IsList}

-- The addresses of the blocks of each order.
abbrev pub Orders : Type 0
Orders = ℕ → List ℕ

abbrev pub replaced : (i : ℕ) → List ℕ → Orders → Orders
replaced i ys xs j = if j == i then ys else xs j

pub replaced_here :
    (i j : ℕ) (ys : List ℕ) (xs : Orders) → (j == i) ≡ true → replaced i ys xs j ≡ ys
replaced_here i j ys xs here = rw here refl

pub replaced_other :
    (i j : ℕ) (ys : List ℕ) (xs : Orders) → (j == i) ≡ false → replaced i ys xs j ≡ xs j
replaced_other i j ys xs other = rw other refl

-- The metadata of a block of the order at the address.
pub record IsBlock (i a : ℕ) (md : MallocMetadata) : Type 0 where
  pub size_is : md.size ≡ blocks_sizes i
  pub address_is : md.address ≡ a + md_size
  pub mmap_is : md.is_mmap ≡ false

-- Blocks of these orders at these addresses do not overlap.
abbrev pub Separate : (i a j b : ℕ) → Type 0
Separate i a j b = (a + blocks_sizes i ≤ b) ⊎ (b + blocks_sizes j ≤ a)

-- The lists are linked, their nodes are blocks of their order, and no two blocks overlap.
pub record IsHeap (s : State) (xs : Orders) : Type 0 where
  pub lists : (i : ℕ) → IsList s.memory (s.md_list_arr i) (xs i)
  pub blocks : (i a : ℕ) → has a (xs i) ≡ true → IsBlock i a (s.memory a)
  pub apart :
      (i j a b : ℕ)
      → has a (xs i) ≡ true
      → has b (xs j) ≡ true
      → ((i ≡ j) × (a ≡ b)) ⊎ Separate i a j b

-- The part of the memory from `md` on, of the size of the order, is not NULL and overlaps no block.
pub record IsHole (i md : ℕ) (s : State) (xs : Orders) : Type 0 where
  pub heap : IsHeap s xs
  pub hole : (j b : ℕ) → has b (xs j) ≡ true → Separate i md j b
  pub not_null : (md == nullptr) ≡ false

pub size_suc : (i : ℕ) → blocks_sizes (suc i) ≡ 2 * blocks_sizes i
size_suc i = let e : 2 ^ suc i ≡ 2 * 2 ^ i = pow-suc 2 i ∙ mul_comm (2 ^ i) 2 in omega (arith, e)

pub size_positive : (i : ℕ) → 1 ≤ blocks_sizes i
size_positive zero = omega arith
size_positive (suc i) = omega (arith, size_suc i, size_positive i)

pub size_le : (i n : ℕ) → blocks_sizes i ≤ blocks_sizes (n + i)
size_le i zero = let e : 0 + i ≡ i = omega arith in rw e (omega arith)
size_le i (suc n) =
    let e : suc n + i ≡ suc (n + i) = omega arith in
    rw e (omega (arith, size_suc (n + i), size_le i n))

-- A node of a list is not NULL.
pub node_not_null :
    (m : Memory) (p a : ℕ) (xs : List ℕ) → Linked m p xs → has a xs ≡ true → (a == nullptr) ≡ false
node_not_null m p a [] h i = ground arith
node_not_null m p a (x ∷ xs) (e, not_null, once, rest) i = elim (Bool-cases (a == x)) [
  | inl here ↦ rw ((==_iff a x).0 here) not_null
  | inr other ↦ node_not_null m (m x).next a xs rest (ground (arith, i, other))
]

-- A block of another order is another node.
pub other_order :
    (s : State) (xs : Orders) (i j a : ℕ)
    → IsHeap s xs
    → (j == i) ≡ false
    → has a (xs j) ≡ true
    → has a (xs i) ≡ false
other_order s xs i j a is other here = elim (Bool-cases (has a (xs i))) [
  | inr out ↦ out
  | inl both ↦ elim (is.apart i j a a both here) [
    | inl same ↦ ground (arith, same.0, other)
    | inr separate ↦ absurd (overlap i j a separate)
  ]
]
  where
    overlap : (i j a : ℕ) → Separate i a j a → ⊥
    overlap i j a (inl le) = omega (arith, le, size_positive i)
    overlap i j a (inr le) = omega (arith, le, size_positive j)

-- Nothing inside the hole is a node.
pub inside_out :
    (i md p j : ℕ) (s : State) (xs : Orders)
    → IsHole i md s xs
    → md ≤ p
    → p < md + blocks_sizes i
    → has p (xs j) ≡ false
inside_out i md p j s xs is from to = elim (Bool-cases (has p (xs j))) [
  | inr out ↦ out
  | inl node ↦ absurd (elim (is.hole j p node) [
    | inl le ↦ omega (arith, le, to)
    | inr le ↦ omega (arith, le, from, size_positive j)
  ])
]

-- The blocks of a memory in which the lists are linked as before, and the blocks as large.
pub moved-IsBlock :
    (i a : ℕ) (md md' : MallocMetadata)
    → IsBlock i a md
    → md'.size ≡ md.size
    → md'.address ≡ md.address
    → md'.is_mmap ≡ md.is_mmap
    → IsBlock i a md'
moved-IsBlock i a md md' is e e' e'' = record {
  size_is = e ∙ is.size_is;
  address_is = e' ∙ is.address_is;
  mmap_is = e'' ∙ is.mmap_is;
}

-- Metadata are written where no node is.
pub store-IsHeap :
    (p : ℕ) (md : MallocMetadata) (s : State) (xs : Orders)
    → ((j : ℕ) → has p (xs j) ≡ false)
    → IsHeap s xs
    → IsHeap (record s { memory = store p md s.memory }) xs
unfolding store
store-IsHeap p md s xs out is = record {
  lists = λ j. record {
    nodes =
        frame s.memory (store p md s.memory) _ (xs j) (λ a i. ap (λ d. d.next) (same j a i))
          (is.lists j).nodes;
    ends = (is.lists j).ends;
  };
  blocks = λ j a i. subst (IsBlock j a) (sym (same j a i)) (is.blocks j a i);
  apart = is.apart;
}
  where
    same :
        (j a : ℕ)
        → has a (xs j) ≡ true
        → ◌≡◌ {A = MallocMetadata} (if a == p then md else s.memory a) (s.memory a)
    same j a i = rw (ne_of_has a p (xs j) i (out j)) refl
