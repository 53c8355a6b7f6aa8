-- ===== src/Buddy/Kept.antt =====
-- What the operations on a list of OS_HW4_234123/malloc_3.cpp leave as it is in the memory.
use os.Prelude.{
  ℕ, ◌≡◌, refl, ◌∙◌, false, List, [], ◌∷◌, ◌++◌, arith, ◌==◌, ==_iff, ==_self, Bool-cases, inl, inr,
  of_both,
}
use os.Buddy.Lists.{
  nullptr, MallocMetadata, Memory, store, set_next, set_prev, MdList, link_md, bypass, unlink_md,
}
use os.Buddy.Order.{has, last_or}

pub next-set_prev : (p q a : ℕ) (m : Memory) → (set_prev p q m a).next ≡ (m a).next
unfolding store
next-set_prev p q a m = elim (Bool-cases (a == p)) [
  | inl same ↦ rw same (rw ((==_iff a p).0 same) refl)
  | inr other ↦ rw other refl
]

pub next-set_next : (p q : ℕ) (m : Memory) → (set_next p q m p).next ≡ q
unfolding store
next-set_next p q m = rw (==_self p) refl

pub next-set_next_other :
    (p q a : ℕ) (m : Memory) → (a == p) ≡ false → (set_next p q m a).next ≡ (m a).next
unfolding store
next-set_next_other p q a m other = rw other refl

-- The metadata agree but for the links.
pub record SameBlock (md md' : MallocMetadata) : Type 0 where
  pub size_same : md'.size ≡ md.size
  pub free_same : md'.is_free ≡ md.is_free
  pub address_same : md'.address ≡ md.address
  pub mmap_same : md'.is_mmap ≡ md.is_mmap

pub SameBlock-refl : (md : MallocMetadata) → SameBlock md md
SameBlock-refl md = record {
  size_same = refl;
  free_same = refl;
  address_same = refl;
  mmap_same = refl;
}

pub SameBlock-trans :
    (md md' md'' : MallocMetadata) → SameBlock md md' → SameBlock md' md'' → SameBlock md md''
SameBlock-trans md md' md'' s t = record {
  size_same = t.size_same ∙ s.size_same;
  free_same = t.free_same ∙ s.free_same;
  address_same = t.address_same ∙ s.address_same;
  mmap_same = t.mmap_same ∙ s.mmap_same;
}

-- Every block agrees but for its links.
abbrev pub SameBlocks : Memory → Memory → Type 0
SameBlocks m m' = (a : ℕ) → SameBlock (m a) (m' a)

stored-SameBlock :
    (p : ℕ) (md : MallocMetadata) (m : Memory) → SameBlock (m p) md → SameBlocks m (store p md m)
unfolding store
stored-SameBlock p md m same a = elim (Bool-cases (a == p)) [
  | inl here ↦ rw here (rw ((==_iff a p).0 here) same)
  | inr other ↦ rw other (SameBlock-refl (m a))
]

pub set_next-SameBlocks : (p q : ℕ) (m : Memory) → SameBlocks m (set_next p q m)
set_next-SameBlocks p q m =
    stored-SameBlock p _ m
      (record { size_same = refl; free_same = refl; address_same = refl; mmap_same = refl })

pub set_prev-SameBlocks : (p q : ℕ) (m : Memory) → SameBlocks m (set_prev p q m)
set_prev-SameBlocks p q m =
    stored-SameBlock p _ m
      (record { size_same = refl; free_same = refl; address_same = refl; mmap_same = refl })

pub SameBlocks-trans : (m m' m'' : Memory) → SameBlocks m m' → SameBlocks m' m'' → SameBlocks m m''
SameBlocks-trans m m' m'' s t a = SameBlock-trans (m a) (m' a) (m'' a) (s a) (t a)

-- What stays behind an operation on the node `md` of a list of the nodes `xs`: all but the links, and
-- the successors of the other nodes.
pub record Kept (md : ℕ) (xs : List ℕ) (m m' : Memory) : Type 0 where
  pub blocks_same : SameBlocks m m'
  pub links_same :
      (a : ℕ)
      → (a == nullptr) ≡ false
      → has a xs ≡ false
      → (a == md) ≡ false
      → (m' a).next ≡ (m a).next

pub Kept-refl : (md : ℕ) (xs : List ℕ) (m : Memory) → Kept md xs m m
Kept-refl md xs m = record {
  blocks_same = λ a. SameBlock-refl (m a);
  links_same = λ a not_null out other. refl;
}

-- Behind a store at `p` and one at `q`, of links.
link_md-SameBlocks :
    (md nxt prev : ℕ) (m : Memory) (l : MdList) → SameBlocks m (link_md md (nxt, prev) (m, l)).0
unfolding link_md
link_md-SameBlocks md nxt prev m l =
    of_both (λ (r : Memory × MdList). SameBlocks m r.0) (nxt == nullptr) _ _ tail_same
      (of_both (λ (r : Memory × MdList). SameBlocks m r.0) (nxt == l.head) _ _
        (set_next-SameBlocks md l.head m)
        (SameBlocks-trans m (set_prev md prev (set_next prev md m)) _ tail_same (
          SameBlocks-trans _ (set_next md nxt (set_prev md prev (set_next prev md m))) _
            (set_next-SameBlocks md nxt (set_prev md prev (set_next prev md m)))
            (set_prev-SameBlocks nxt md _))))
  where
    tail_same : SameBlocks m (set_prev md prev (set_next prev md m))
    tail_same =
        SameBlocks-trans m (set_next prev md m) _ (set_next-SameBlocks prev md m)
          (set_prev-SameBlocks md prev (set_next prev md m))

link_md_next :
    (md nxt prev a : ℕ) (m : Memory) (l : MdList)
    → (a == md) ≡ false
    → (a == prev) ≡ false
    → ((link_md md (nxt, prev) (m, l)).0 a).next ≡ (m a).next
unfolding link_md
link_md_next md nxt prev a m l other other' =
    of_both (λ (r : Memory × MdList). (r.0 a).next ≡ (m a).next) (nxt == nullptr) _ _ tail_next
      (of_both (λ (r : Memory × MdList). (r.0 a).next ≡ (m a).next) (nxt == l.head) _ _
        (next-set_next_other md l.head a m other)
        (next-set_prev nxt md a _
          ∙ next-set_next_other md nxt a (set_prev md prev (set_next prev md m)) other
          ∙ tail_next))
  where
    tail_next : (set_prev md prev (set_next prev md m) a).next ≡ (m a).next
    tail_next =
        next-set_prev md prev a (set_next prev md m) ∙ next-set_next_other prev md a m other'

bypass-SameBlocks :
    (curr prev : ℕ) (m : Memory) (l : MdList) → SameBlocks m (bypass curr prev (m, l)).0
unfolding bypass
bypass-SameBlocks curr prev m l =
    of_both (λ (r : Memory × MdList). SameBlocks m r.0) (curr == l.head) _ _
      (of_both (λ (r : Memory × MdList). SameBlocks m r.0) (l.head == l.tail) _ _
        (λ a. SameBlock-refl (m a)) (set_prev-SameBlocks (m l.head).next nullptr m))
      (of_both (λ (r : Memory × MdList). SameBlocks m r.0) (curr == l.tail) _ _
        (set_next-SameBlocks prev nullptr m)
        (SameBlocks-trans m (set_next prev (m curr).next m) _
          (set_next-SameBlocks prev (m curr).next m) (set_prev-SameBlocks (m curr).next prev _)))

bypass_next :
    (curr prev a : ℕ) (m : Memory) (l : MdList)
    → (a == prev) ≡ false
    → ((bypass curr prev (m, l)).0 a).next ≡ (m a).next
unfolding bypass
bypass_next curr prev a m l other =
    of_both (λ (r : Memory × MdList). (r.0 a).next ≡ (m a).next) (curr == l.head) _ _
      (of_both (λ (r : Memory × MdList). (r.0 a).next ≡ (m a).next) (l.head == l.tail) _ _ refl
        (next-set_prev (m l.head).next nullptr a m))
      (of_both (λ (r : Memory × MdList). (r.0 a).next ≡ (m a).next) (curr == l.tail) _ _
        (next-set_next_other prev nullptr a m other)
        (next-set_prev (m curr).next prev a _ ∙ next-set_next_other prev (m curr).next a m other))

-- `NULL` or the last node in front, against another node.
outside_front :
    (d a : ℕ) (front back : List ℕ)
    → (a == d) ≡ false
    → has a (front ++ back) ≡ false
    → (a == last_or d front) ≡ false
outside_front d a [] back other out = other
outside_front d a (x ∷ front) back other out =
    outside_front x a front back (ground (arith, out)) (ground (arith, out))

pub link_md-Kept :
    (md nxt : ℕ) (front back : List ℕ) (m : Memory) (l : MdList)
    → Kept md (front ++ back) m (link_md md (nxt, last_or nullptr front) (m, l)).0
link_md-Kept md nxt front back m l = record {
  blocks_same = link_md-SameBlocks md nxt (last_or nullptr front) m l;
  links_same = λ a not_null out other.
      link_md_next md nxt (last_or nullptr front) a m l other
        (outside_front nullptr a front back not_null out);
}

pub unlink_md-Kept :
    (md : ℕ) (front back : List ℕ) (m : Memory) (l : MdList)
    → Kept md (front ++ back) m (unlink_md (md, last_or nullptr front) (m, l)).0
unfolding unlink_md
unlink_md-Kept md front back m l =
    let prev = last_or nullptr front in
    let r = bypass md prev (m, l) in
    of_both (λ (r : Memory × MdList). Kept md (front ++ back) m r.0) (md == nullptr) _ _
      (Kept-refl _ _ m)
      (record {
        blocks_same = SameBlocks-trans m r.0 _ (bypass-SameBlocks md prev m l) (
            SameBlocks-trans r.0 (set_prev md nullptr r.0) _ (set_prev-SameBlocks md nullptr r.0)
              (set_next-SameBlocks md nullptr (set_prev md nullptr r.0)));
        links_same = λ a not_null out other.
            next-set_next_other md nullptr a (set_prev md nullptr r.0) other
            ∙ next-set_prev md nullptr a r.0
            ∙ bypass_next md prev a m l (outside_front nullptr a front back not_null out);
      })
