-- ===== src/Buddy/Whole.antt =====
-- The metadata of the block that `sfree` and `srealloc` of OS_HW4_234123/malloc_3.cpp make of two.
use os.Prelude.{
  ℕ, suc, ◌+◌, ◌*◌, ◌≡◌, refl, sym, ap, subst, ◌∙◌, Bool, true, false, arith, ◌==◌, ==_self,
  if◌then◌else◌,
}
use os.Buddy.Lists.{MallocMetadata, Memory, store, set_free}
use os.Buddy.{State}
use os.Buddy.Order.{has}
use os.Buddy.Heap.{Orders, IsBlock, IsHeap, store-IsHeap, size_suc}

-- The memory with the size of the whole block.
abbrev pub whole_memory : (first : ℕ) → (free : Bool) → Memory → Memory
whole_memory first free m =
    let doubled = store first (record (m first) { size = (m first).size * 2 }) m in
    if free then set_free first true doubled else doubled

stored_here : (p : ℕ) (md : MallocMetadata) (m : Memory) → store p md m p ≡ md
unfolding store
stored_here p md m = rw (==_self p) refl

stored_other :
    (p a : ℕ) (md : MallocMetadata) (m : Memory) → (a == p) ≡ false → store p md m a ≡ m a
unfolding store
stored_other p a md m other = rw other refl

pub whole_memory_other :
    (first a : ℕ) (free : Bool) (m : Memory)
    → (a == first) ≡ false
    → whole_memory first free m a ≡ m a
whole_memory_other first a true m other =
    stored_other first a _ _ other ∙ stored_other first a _ m other
whole_memory_other first a false m other = stored_other first a _ m other

-- Both stores.
pub whole_memory_first :
    (first : ℕ) (free : Bool) (m : Memory)
    → whole_memory first free m first ≡ record (m first) {
      size = (m first).size * 2;
      is_free = if free then true else (m first).is_free;
    }
whole_memory_first first true m =
    let e = stored_here first (record (m first) { size = (m first).size * 2 }) m in
    stored_here first _ _ ∙ ap (λ (d : MallocMetadata). record d { is_free = true }) e
whole_memory_first first false m = stored_here first _ m

pub whole_memory-IsHeap :
    (first : ℕ) (free : Bool) (s : State) (xs : Orders)
    → ((j : ℕ) → has first (xs j) ≡ false)
    → IsHeap s xs
    → IsHeap (record s { memory = whole_memory first free s.memory }) xs
whole_memory-IsHeap first true s xs out is =
    store-IsHeap first _ _ xs out (store-IsHeap first _ s xs out is)
whole_memory-IsHeap first false s xs out is = store-IsHeap first _ s xs out is

pub whole-IsBlock :
    (i first : ℕ) (free : Bool) (m : Memory)
    → IsBlock i first (m first)
    → IsBlock (i + 1) first (whole_memory first free m first)
whole-IsBlock i first free m is =
    let e : i + 1 ≡ suc i = omega arith in
    subst (IsBlock (i + 1) first) (sym (whole_memory_first first free m)) (record {
      size_is = rw e (omega (arith, is.size_is, size_suc i));
      address_is = is.address_is;
      mmap_is = is.mmap_is;
    })
