-- ===== src/FirstFit/Examples.antt =====
-- Calls of the allocator of OS_HW4_234123/malloc_2.cpp.
use os.Prelude.{ℕ, ◌≡◌, refl, arith, true, false, Option, none, some, [], ◌∷◌}
use os.FirstFit.{
  State, malloc, calloc, realloc, take_free, place, allocate, smalloc, scalloc, give_back, release,
  sfree, move, resize, srealloc, run,
}
use os.FirstFit.Pointers.{Served, smalloc-Served}
use os.FirstFit.Counts.{IsValid, Kept, EndsWith, run-Kept}

-- A block of 16 bytes in use and one of 64 that is free, at the addresses 1000 and 1048.
abbrev two_blocks : State
two_blocks = record {
  blocks =
      record { address = 1000; size = 16; is_free = false }
      ∷ record { address = 1048; size = 64; is_free = true }
      ∷ [];
  num_of_free_blocks = 1;
  num_of_free_bytes = 64;
  num_of_allocated_blocks = 2;
  num_of_allocated_bytes = 80;
  num_of_meta_data_bytes = 64;
  memory = λ a. a;
}

two_blocks-IsValid : IsValid 1144 two_blocks
two_blocks-IsValid = record {
  free_count = refl;
  free_size = refl;
  count = refl;
  size = refl;
  meta_size = refl;
  apart = (omega arith, (omega arith, omega arith));
}

abbrev pointer : Option (Option ℕ × State) → Option ℕ
pointer none = none
pointer (some r) = r.0

free_block_given : pointer (run (malloc 50) none two_blocks) ≡ some 1080
unfolding run smalloc allocate take_free place
free_block_given = refl

-- The product of 2^32 and 2^32 is 0 in `size_t`: any free block is given.
product_wraps : pointer (run (calloc 4294967296 4294967296) none two_blocks) ≡ some 1080
unfolding run scalloc allocate take_free place
product_wraps = refl

block_moved : pointer (run (realloc (some 1032) 60) none two_blocks) ≡ some 1080
unfolding run srealloc give_back resize allocate take_free place move sfree release
block_moved = refl

run-Kept_example : EndsWith (λ r. Kept r.1) (run (realloc (some 1032) 100) (some 1200) two_blocks)
run-Kept_example =
    run-Kept 1144 (realloc (some 1032) 100) (some 1200) two_blocks two_blocks-IsValid (omega arith)

smalloc-Served_example : Served 50 two_blocks (smalloc 50 (some 1200) two_blocks)
smalloc-Served_example =
    smalloc-Served 1144 50 (some 1200) two_blocks two_blocks-IsValid (omega arith)
