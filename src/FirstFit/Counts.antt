-- ===== src/FirstFit/Counts.antt =====
-- Every call of OS_HW4_234123/malloc_2.cpp keeps the counters and the order of the blocks.
use os.Prelude.{
  ℕ, ◌+◌, ◌*◌, ◌%◌, ◌^◌, ◌≤◌, ◌≡◌, false, Option, none, some, List, [], ◌∷◌, arith, ltb, leb, ◌==◌,
  length, length-append, Bool-cases, inl, inr,
}
use os.FirstFit.{
  Block, State, Call, malloc, calloc, free, realloc, size_meta_data, reuse, extend, append_block,
  place, allocate, release, resize, smalloc, clear, scalloc, sfree, copy, with_pointer, move,
  srealloc, run,
}
use os.FirstFit.Blocks.{
  free_blocks, free_bytes, all_bytes, Apart, Taken, take_free-Taken, Given, give_back-Given,
  free_blocks-append, free_bytes-append, all_bytes-append, append-Apart,
}

-- The counters are those of the list, whose blocks lie apart, below the program break `hi`.
pub record IsValid (hi : ℕ) (s : State) : Type 0 where
  pub free_count : s.num_of_free_blocks ≡ free_blocks s.blocks
  pub free_size : s.num_of_free_bytes ≡ free_bytes s.blocks
  pub count : s.num_of_allocated_blocks ≡ length s.blocks
  pub size : s.num_of_allocated_bytes ≡ all_bytes s.blocks
  pub meta_size : s.num_of_meta_data_bytes ≡ size_meta_data * length s.blocks
  pub apart : Apart 0 s.blocks hi

abbrev pub Kept : State → Type 0
Kept s = (hi : ℕ) × IsValid hi s

-- What `sbrk` gives lies behind all that it gave before.
abbrev pub Behind : (hi : ℕ) → Option ℕ → Type 0
Behind hi none = Unit {0}
Behind hi (some address) = hi ≤ address

reuse-IsValid :
    (hi size : ℕ) (b : Block) (bs : List Block) (s : State)
    → IsValid hi s
    → Taken size s.blocks (some (b, bs))
    → IsValid hi (reuse b bs s)
reuse-IsValid hi size b bs s is h = record {
  free_count = omega (arith, is.free_count, h.2);
  free_size = omega (arith, is.free_size, h.3);
  count = omega (arith, is.count, h.1.lengths);
  size = omega (arith, is.size, h.1.bytes);
  meta_size = omega (arith, is.meta_size, h.1.lengths);
  apart = h.1.apart 0 hi is.apart;
}

extend-IsValid :
    (hi size address : ℕ) (s : State)
    → IsValid hi s
    → hi ≤ address
    → IsValid (address + size_meta_data + size) (extend size address s)
extend-IsValid hi size address s is behind =
    let b : Block = record { address = address; size = size; is_free = false } in
    record {
      free_count = omega (arith, is.free_count, free_blocks-append s.blocks (b ∷ []));
      free_size = omega (arith, is.free_size, free_bytes-append s.blocks (b ∷ []));
      count = omega (arith, is.count, length-append s.blocks (b ∷ []));
      size = omega (arith, is.size, all_bytes-append s.blocks (b ∷ []));
      meta_size = omega (arith, is.meta_size, length-append s.blocks (b ∷ []));
      apart = append-Apart 0 hi s.blocks b is.apart behind;
    }

append_block-Kept :
    (hi size : ℕ) (sbrk : Option ℕ) (s : State)
    → IsValid hi s
    → Behind hi sbrk
    → Kept (append_block size sbrk s).1
unfolding append_block
append_block-Kept hi size none s is behind = (hi, is)
append_block-Kept hi size (some address) s is behind =
    (_, extend-IsValid hi size address s is behind)

place-Kept :
    (hi size : ℕ) (sbrk : Option ℕ) (s : State) (o : Option (Block × List Block))
    → IsValid hi s
    → Behind hi sbrk
    → Taken size s.blocks o
    → Kept (place size sbrk s o).1
unfolding place
place-Kept hi size sbrk s none is behind h = append_block-Kept hi size sbrk s is behind
place-Kept hi size sbrk s (some (b, bs)) is behind h = (hi, reuse-IsValid hi size b bs s is h)

allocate-Kept :
    (hi size : ℕ) (sbrk : Option ℕ) (s : State)
    → IsValid hi s
    → Behind hi sbrk
    → Kept (allocate size sbrk s).1
unfolding allocate
allocate-Kept hi size sbrk s is behind =
    place-Kept hi size sbrk s _ is behind (take_free-Taken size s.blocks)

smalloc-Kept :
    (hi size : ℕ) (sbrk : Option ℕ) (s : State)
    → IsValid hi s
    → Behind hi sbrk
    → Kept (smalloc size sbrk s).1
unfolding smalloc
smalloc-Kept hi size sbrk s is behind = elim (Bool-cases (size == 0)) [
  | inl none_asked ↦ rw none_asked (hi, is)
  | inr asked ↦ rw asked (elim (Bool-cases (ltb 100000000 size)) [
    | inl large ↦ rw large (hi, is)
    | inr small ↦ rw small (allocate-Kept hi size sbrk s is behind)
  ])
]

clear-Kept : (p : Option ℕ) (n : ℕ) (s : State) → Kept s → Kept (clear p n s)
clear-Kept none n s h = h
clear-Kept (some p) n s (hi, is) = (
  hi,
  record {
    free_count = is.free_count;
    free_size = is.free_size;
    count = is.count;
    size = is.size;
    meta_size = is.meta_size;
    apart = is.apart;
  },
)

scalloc-Kept :
    (hi num size : ℕ) (sbrk : Option ℕ) (s : State)
    → IsValid hi s
    → Behind hi sbrk
    → Kept (scalloc num size sbrk s).1
unfolding scalloc
scalloc-Kept hi num size sbrk s is behind = elim (Bool-cases (size == 0)) [
  | inl none_asked ↦ rw none_asked (hi, is)
  | inr asked ↦ rw asked (elim (Bool-cases (num == 0)) [
    | inl no_number ↦ rw no_number (hi, is)
    | inr number ↦ rw number (elim (Bool-cases (ltb 100000000 ((size * num) % 2 ^ 64))) [
      | inl large ↦ rw large (hi, is)
      | inr small ↦
          rw small (clear-Kept _ _ _ (allocate-Kept hi ((size * num) % 2 ^ 64) sbrk s is behind))
    ])
  ])
]

-- What is promised of a call that ends.
abbrev pub Ends : (State → Type 0) → Option State → Type 0
Ends P none = Unit
Ends P (some s) = P s

abbrev pub EndsWith : (Option ℕ × State → Type 0) → Option (Option ℕ × State) → Type 0
EndsWith P none = Unit
EndsWith P (some r) = P r

freed-IsValid :
    (hi p : ℕ) (b : Block) (bs : List Block) (s : State)
    → IsValid hi s
    → Given p s.blocks (some (b, bs))
    → b.is_free ≡ false
    → IsValid hi (record s {
      blocks = bs;
      num_of_free_blocks = s.num_of_free_blocks + 1;
      num_of_free_bytes = s.num_of_free_bytes + b.size;
    })
freed-IsValid hi p b bs s is h used =
    let one_more : free_blocks s.blocks + 1 ≡ free_blocks bs + 0 = rw used at h.2 in
    let more : free_bytes s.blocks + b.size ≡ free_bytes bs + 0 = rw used at h.3 in
    record {
      free_count = omega (arith, is.free_count, one_more);
      free_size = omega (arith, is.free_size, more);
      count = omega (arith, is.count, h.1.lengths);
      size = omega (arith, is.size, h.1.bytes);
      meta_size = omega (arith, is.meta_size, h.1.lengths);
      apart = h.1.apart 0 hi is.apart;
    }

release-Kept :
    (hi p : ℕ) (s : State) (o : Option (Block × List Block))
    → IsValid hi s
    → Given p s.blocks o
    → Ends Kept (release s o)
unfolding release
release-Kept hi p s none is h = tt
release-Kept hi p s (some (b, bs)) is h = elim (Bool-cases b.is_free) [
  | inl unused ↦ rw unused (hi, is)
  | inr used ↦ rw used (hi, freed-IsValid hi p b bs s is h used)
]

sfree-Kept : (p : Option ℕ) (s : State) → Kept s → Ends Kept (sfree p s)
unfolding sfree
sfree-Kept none s h = h
sfree-Kept (some p) s (hi, is) = release-Kept hi p s _ is (give_back-Given p s.blocks)

copy-Kept : (p q n : ℕ) (s : State) → Kept s → Kept (copy p q n s)
copy-Kept p q n s (hi, is) = (
  hi,
  record {
    free_count = is.free_count;
    free_size = is.free_size;
    count = is.count;
    size = is.size;
    meta_size = is.meta_size;
    apart = is.apart;
  },
)

with_pointer-Kept :
    (p : Option ℕ) (o : Option State) → Ends Kept o → EndsWith (λ r. Kept r.1) (with_pointer p o)
with_pointer-Kept p none h = tt
with_pointer-Kept p (some s) h = h

move-Kept :
    (oldp size : ℕ) (r : Option ℕ × State) → Kept r.1 → EndsWith (λ r. Kept r.1) (move oldp size r)
unfolding move
move-Kept oldp size (none, s) h = h
move-Kept oldp size (some p, s) h =
    with_pointer-Kept (some p) _ (sfree-Kept (some oldp) _ (copy-Kept p oldp size s h))

resize-Kept :
    (hi oldp size : ℕ) (sbrk : Option ℕ) (s : State) (o : Option (Block × List Block))
    → IsValid hi s
    → Behind hi sbrk
    → EndsWith (λ r. Kept r.1) (resize oldp size sbrk s o)
unfolding resize
resize-Kept hi oldp size sbrk s none is behind = tt
resize-Kept hi oldp size sbrk s (some (b, bs)) is behind = elim (Bool-cases (leb size b.size)) [
  | inl enough ↦ rw enough (hi, is)
  | inr more ↦ rw more (move-Kept oldp size _ (allocate-Kept hi size sbrk s is behind))
]

srealloc-Kept :
    (hi : ℕ) (oldp : Option ℕ) (size : ℕ) (sbrk : Option ℕ) (s : State)
    → IsValid hi s
    → Behind hi sbrk
    → EndsWith (λ r. Kept r.1) (srealloc oldp size sbrk s)
unfolding srealloc
srealloc-Kept hi none size sbrk s is behind = smalloc-Kept hi size sbrk s is behind
srealloc-Kept hi (some oldp) size sbrk s is behind = elim (Bool-cases (size == 0)) [
  | inl none_asked ↦ rw none_asked (hi, is)
  | inr asked ↦ rw asked (elim (Bool-cases (ltb 100000000 size)) [
    | inl large ↦ rw large (hi, is)
    | inr small ↦ rw small (resize-Kept hi oldp size sbrk s _ is behind)
  ])
]

-- Every call, of `sfree` and `srealloc` those with NULL or a block's pointer, keeps the five counters
-- equal to what they count in the list, and the blocks with their metadata in order and apart, if
-- `sbrk` gives memory behind all that it gave before.
pub run-Kept :
    (hi : ℕ) (c : Call) (sbrk : Option ℕ) (s : State)
    → IsValid hi s
    → Behind hi sbrk
    → EndsWith (λ r. Kept r.1) (run c sbrk s)
unfolding run
run-Kept hi (malloc size) sbrk s is behind = smalloc-Kept hi size sbrk s is behind
run-Kept hi (calloc num size) sbrk s is behind = scalloc-Kept hi num size sbrk s is behind
run-Kept hi (free p) sbrk s is behind = with_pointer-Kept none _ (sfree-Kept p s (hi, is))
run-Kept hi (realloc oldp size) sbrk s is behind = srealloc-Kept hi oldp size sbrk s is behind
