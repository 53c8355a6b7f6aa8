-- ===== src/Buddy/Smalloc.antt =====
-- `smalloc` of OS_HW4_234123/malloc_3.cpp, for sizes of at most 128KB with the metadata.
use os.Prelude.{
  ℕ, ◌+◌, ◌*◌, ◌≤◌, ◌<◌, ◌≡◌, refl, inl, inr, true, false, Option, some, arith, length, le→leb,
}
use os.Buddy.Lists.{md_size}
use os.Buddy.{State, max_order, size_128k, invalid_size, initialise, find_exact_size_block, smalloc}
use os.Buddy.Heap.{Orders, IsHeap}
use os.Buddy.Take.{IsAllocated}
use os.Buddy.Exact.{IsLeast, Outcome, find_exact_size_block_outcome}
use os.Buddy.Start.{IsStarted, start_of, no_blocks, emptied, initialise-IsStarted}

-- A block that was free before the call, of the least order that is large enough.
abbrev pub Given : (size : ℕ) → State → Orders → Option (ℕ × State) → Type 0
Given size s xs r =
    (k : ℕ) × (md : ℕ) × (s' : State) × (ys : Orders) × (r ≡ some (md + md_size, s'))
    × (k ≤ max_order)
    × IsLeast size k
    × IsAllocated k md s s' xs ys

-- While the first of the blocks of 128KB is free, there is a block.
first_block_fits :
    (size : ℕ) (s t : State) (xs ys : Orders) (res : ℕ) (r : Option (ℕ × State))
    → IsStarted 32 res s t xs ys
    → size ≤ size_128k
    → Outcome size t ys r
    → Given size t ys r
first_block_fits size s t xs ys res r started le (inr given) = given
first_block_fits size s t xs ys res r started le (inl (e, small)) =
    let lt =
      small max_order (res + 0 * size_128k) (omega arith) (started.here 0 (omega arith))
        (started.free 0 (omega arith)) in
    absurd (omega (arith, lt, le))

small_smalloc :
    (fuel : ℕ) (sbrk mmap : Option ℕ) (size : ℕ) (s t : State)
    → initialise fuel sbrk s ≡ some t
    → invalid_size size ≡ false
    → md_size + size ≤ size_128k
    → smalloc fuel sbrk mmap size s ≡ find_exact_size_block fuel (md_size + size) t
unfolding smalloc
small_smalloc fuel sbrk mmap size s t e valid le =
    rw (e, smalloc) (rw (valid, le→leb (md_size + size) size_128k le) refl)

-- On the first call, where `sbrk` returns the address `pb`, with a size that is valid and at most
-- 128KB with the metadata, and more than 43 steps for each loop over a list: the lists are first those
-- of 32 blocks of 128KB, one behind the other from the first multiple of 128KB behind `pb`, all free,
-- and of no other block. Then a block of the least order that is large enough, which was free, is in
-- use; its data are returned; blocks still do not overlap, and every other one stays in its list as
-- it was.
pub smalloc_first :
    (fuel pb : ℕ) (mmap : Option ℕ) (size : ℕ) (s : State)
    → s.first_malloc ≡ true
    → invalid_size size ≡ false
    → md_size + size ≤ size_128k
    → 43 < fuel
    → (t : State) × (xs : Orders) × IsStarted 32 (start_of pb) (emptied s) t no_blocks xs
      × Given (md_size + size) t xs (smalloc fuel (some pb) mmap size s)
smalloc_first fuel pb mmap size s first valid le lt =
    let (t, xs, e, started) = initialise-IsStarted fuel pb s first (omega (arith, lt)) in
    let found =
      find_exact_size_block_outcome fuel (md_size + size) t xs started.heap
        (λ j. omega (arith, lt, started.grows.lengths j)) in
    (
      t,
      xs,
      started,
      rw (small_smalloc fuel (some pb) mmap size s t e valid le) (
          first_block_fits (md_size + size) (emptied s) t no_blocks xs (start_of pb) _ started le
            found),
    )

later_initialise :
    (fuel : ℕ) (sbrk : Option ℕ) (s : State)
    → s.first_malloc ≡ false
    → initialise fuel sbrk s ≡ some s
unfolding initialise
later_initialise fuel sbrk s later = rw later refl

-- On a later call with such a size, on a heap of linked lists of blocks that do not overlap, with fuel
-- for the longest list and eleven more steps: either NULL is returned, no free block is large enough,
-- and nothing has changed; or a block of the least order that is large enough, which was free before,
-- is in use and its data are returned; the lists are linked, no two blocks overlap, and every other
-- block stays in its list with its metadata but for the links.
pub smalloc_outcome :
    (fuel : ℕ) (sbrk mmap : Option ℕ) (size : ℕ) (s : State) (xs : Orders)
    → s.first_malloc ≡ false
    → invalid_size size ≡ false
    → md_size + size ≤ size_128k
    → IsHeap s xs
    → ((j : ℕ) → length (xs j) + 11 < fuel)
    → Outcome (md_size + size) s xs (smalloc fuel sbrk mmap size s)
smalloc_outcome fuel sbrk mmap size s xs later valid le is lt =
    rw (small_smalloc fuel sbrk mmap size s s (later_initialise fuel sbrk s later) valid le)
      (find_exact_size_block_outcome fuel (md_size + size) s xs is lt)
