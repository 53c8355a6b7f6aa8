-- ===== src/FirstFit.antt =====
-- The allocator of OS_HW4_234123/malloc_2.cpp: a list of blocks, of which the first free one that is
-- large enough is given again. `next` and `prev` of a block are its neighbours in the list. What
-- `sbrk` returns is an argument: an address, or -1.
pub mod Blocks
pub mod Counts
pub mod Pointers
mod Examples
use os.Prelude.{
  ℕ, zero, suc, ◌+◌, ◌-◌, ◌*◌, ◌%◌, ◌^◌, Bool, true, false, ◌&&◌, Option, none, some, List, [], ◌∷◌,
  ◌++◌, ltb, leb, ◌==◌, if◌then◌else◌,
}

-- `MallocMetadata`, with its own address.
pub record Block : Type 0 where
  pub address : ℕ
  pub size : ℕ
  pub is_free : Bool

-- The list, the five counters, and the bytes of the memory outside the metadata.
pub record State : Type 0 where
  pub blocks : List Block
  pub num_of_free_blocks : ℕ
  pub num_of_free_bytes : ℕ
  pub num_of_allocated_blocks : ℕ
  pub num_of_allocated_bytes : ℕ
  pub num_of_meta_data_bytes : ℕ
  pub memory : ℕ → ℕ

-- `sizeof(MallocMetadata)`
abbrev pub size_meta_data : ℕ
size_meta_data = 32

-- The address behind the metadata of a block.
abbrev pub payload : Block → ℕ
payload b = b.address + size_meta_data

abbrev pub put_back : Block → Option (Block × List Block) → Option (Block × List Block)
put_back b none = none
put_back b (some (c, cs)) = some (c, b ∷ cs)

-- The loop over the list: the first free block that is large enough, and the list with it in use.
unfoldable pub take_free : (size : ℕ) → List Block → Option (Block × List Block)
take_free size [] = none
take_free size (b ∷ bs) =
    let rest = put_back b (take_free size bs) in
    if leb size b.size && b.is_free then some (b, record b { is_free = false } ∷ bs) else rest

abbrev pub reuse : Block → List Block → State → State
reuse b bs s = record s {
  blocks = bs;
  num_of_free_blocks = s.num_of_free_blocks - 1;
  num_of_free_bytes = s.num_of_free_bytes - b.size;
}

abbrev pub extend : (size address : ℕ) → State → State
extend size address s = record s {
  blocks = s.blocks ++ record { address = address; size = size; is_free = false } ∷ [];
  num_of_allocated_blocks = s.num_of_allocated_blocks + 1;
  num_of_allocated_bytes = s.num_of_allocated_bytes + size;
  num_of_meta_data_bytes = s.num_of_meta_data_bytes + size_meta_data;
}

-- A new block at the end of the list, if `sbrk` gave room for it.
unfoldable pub append_block : (size : ℕ) (sbrk : Option ℕ) → State → Option ℕ × State
append_block size none s = (none, s)
append_block size (some address) s = (some (address + size_meta_data), extend size address s)

-- What follows the search: the block found is used again, or a new one appended.
unfoldable pub place :
    (size : ℕ) (sbrk : Option ℕ) → State → Option (Block × List Block) → Option ℕ × State
place size sbrk s none = append_block size sbrk s
place size sbrk s (some (b, bs)) = (some (payload b), reuse b bs s)

-- The search and what follows it, which three functions have in common: the pointer, or NULL.
unfoldable pub allocate : (size : ℕ) (sbrk : Option ℕ) → State → Option ℕ × State
allocate size sbrk s = place size sbrk s (take_free size s.blocks)

unfoldable pub smalloc : (size : ℕ) (sbrk : Option ℕ) → State → Option ℕ × State
smalloc size sbrk s =
    if size == 0 then (none, s) else if ltb 100000000 size then (none, s) else allocate size sbrk s

-- `memset(p, 0, n)`
abbrev pub clear : Option ℕ → (n : ℕ) → State → State
clear none n s = s
clear (some p) n s = record s { memory = λ a. if leb p a && ltb a (p + n) then 0 else s.memory a }

-- The product is one of `size_t`.
unfoldable pub scalloc : (num size : ℕ) (sbrk : Option ℕ) → State → Option ℕ × State
scalloc num size sbrk s =
    let total = (size * num) % 2 ^ 64 in
    let (p, s') = allocate total sbrk s in
    if size == 0
    then (none, s)
    else if num == 0
    then (none, s)
    else if ltb 100000000 total
    then (none, s)
    else (p, clear p total s')

-- The block of a pointer, and the list with it free.
unfoldable pub give_back : (p : ℕ) → List Block → Option (Block × List Block)
give_back p [] = none
give_back p (b ∷ bs) =
    let rest = put_back b (give_back p bs) in
    if payload b == p then some (b, record b { is_free = true } ∷ bs) else rest

-- A block that was not free becomes free.
unfoldable pub release : State → Option (Block × List Block) → Option State
release s none = none
release s (some (b, bs)) =
    if b.is_free
    then some s
    else some (record s {
      blocks = bs;
      num_of_free_blocks = s.num_of_free_blocks + 1;
      num_of_free_bytes = s.num_of_free_bytes + b.size;
    })

-- `none` is the use of a pointer that is no block's: its metadata is whatever stands there.
unfoldable pub sfree : Option ℕ → State → Option State
sfree none s = some s
sfree (some p) s = release s (give_back p s.blocks)

-- `memcpy(p, q, n)`
abbrev pub copy : (p q n : ℕ) → State → State
copy p q n s = record s {
  memory = λ a. if leb p a && ltb a (p + n) then s.memory (q + (a - p)) else s.memory a;
}

abbrev pub with_pointer : Option ℕ → Option State → Option (Option ℕ × State)
with_pointer p none = none
with_pointer p (some s) = some (p, s)

-- The part of `srealloc` behind the allocation: the old contents are copied, the old block freed.
unfoldable pub move : (oldp size : ℕ) → Option ℕ × State → Option (Option ℕ × State)
move oldp size (none, s) = some (none, s)
move oldp size (some p, s) = with_pointer (some p) (sfree (some oldp) (copy p oldp size s))

-- The old block stays if it is large enough.
unfoldable pub resize :
    (oldp size : ℕ) (sbrk : Option ℕ)
    → State
    → Option (Block × List Block)
    → Option (Option ℕ × State)
resize oldp size sbrk s none = none
resize oldp size sbrk s (some (b, bs)) =
    if leb size b.size then some (some oldp, s) else move oldp size (allocate size sbrk s)

unfoldable pub srealloc :
    Option ℕ → (size : ℕ) (sbrk : Option ℕ) → State → Option (Option ℕ × State)
srealloc none size sbrk s = some (smalloc size sbrk s)
srealloc (some oldp) size sbrk s =
    if size == 0
    then some (none, s)
    else if ltb 100000000 size
    then some (none, s)
    else resize oldp size sbrk s (give_back oldp s.blocks)

-- A call of one of the functions.
pub data Call : Type 0 where
  malloc : (size : ℕ) → Call
  calloc : (num size : ℕ) → Call
  free : (p : Option ℕ) → Call
  realloc : (oldp : Option ℕ) (size : ℕ) → Call

unfoldable pub run : Call → (sbrk : Option ℕ) → State → Option (Option ℕ × State)
run (malloc size) sbrk s = some (smalloc size sbrk s)
run (calloc num size) sbrk s = some (scalloc num size sbrk s)
run (free p) sbrk s = with_pointer none (sfree p s)
run (realloc oldp size) sbrk s = srealloc oldp size sbrk s
