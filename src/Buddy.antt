-- ===== src/Buddy.antt =====
-- The buddy allocator of OS_HW4_234123/malloc_3.cpp. A list of blocks for each order, and one of the
-- mapped ones; `none` is a use of memory that is undefined, or a loop over a list that does not end.
pub mod Lists
pub mod Release
pub mod Order
pub mod Kept
pub mod Prevs
pub mod Insert
pub mod Delete
pub mod Heap
pub mod HeapLists
pub mod HeapDelete
pub mod Split
pub mod SplitLoop
pub mod Search
pub mod Take
pub mod Exact
pub mod Start
pub mod Smalloc
pub mod Calls
pub mod Sizes
pub mod Free
pub mod Combine
pub mod Sfree
pub mod Whole
pub mod Merge
pub mod Neighbours
mod Examples
mod HeapExamples
use os.Prelude.{
  ℕ, zero, suc, ◌+◌, ◌-◌, ◌*◌, ◌/◌, ◌%◌, ◌^◌, Bool, true, false, not, ◌&&◌, ◌||◌, Option, none,
  some, List, [], ◌∷◌, ltb, leb, ◌==◌, if◌then◌else◌,
}
use Lists.{
  ◌>>=◌, nullptr, MallocMetadata, Memory, md_size, store, set_free, meta_data_init, MdList,
  empty_list, find_free_sized_block, add_md, del_md, free_blocks_num, free_blocks_num_bytes,
  all_blocks_num, all_blocks_num_bytes,
}

-- `bytes` are those of the memory outside the metadata.
pub record State : Type 0 where
  pub memory : Memory
  pub bytes : ℕ → ℕ
  pub md_list_arr : ℕ → MdList
  pub mapped_list : MdList
  pub first_malloc : Bool

abbrev pub max_order : ℕ
max_order = 10

abbrev pub size_128k : ℕ
size_128k = 131072

-- `blocksSizesArr`
abbrev pub blocks_sizes : ℕ → ℕ
blocks_sizes i = 128 * 2 ^ i

-- The loop of `findSizeIndexInList` from `i`; `none` is the index -1, at which no array is read.
unfoldable pub size_index_loop : (left i size : ℕ) → Option ℕ
size_index_loop zero i size = none
size_index_loop (suc left) i size =
    let rest = size_index_loop left (i + 1) size in if blocks_sizes i == size then some i else rest

unfoldable pub find_size_index_in_list : (size : ℕ) → Option ℕ
find_size_index_in_list size = size_index_loop 11 0 size

abbrev pub invalid_size : ℕ → Bool
invalid_size size = (size == 0) || ltb 100000000 size

abbrev pub put_list : ℕ → State → Memory × MdList → State
put_list i s (m, l) = record s {
  memory = m;
  md_list_arr = λ j. if j == i then l else s.md_list_arr j;
}

-- An operation on the list of an order.
unfoldable pub on_list :
    (i : ℕ) → (Memory × MdList → Option (Memory × MdList)) → State → Option State
on_list i f s =
    let done = f (s.memory, s.md_list_arr i) >>= (λ r. some (put_list i s r)) in
    if ltb max_order i then none else done

-- A new free block of an order, at the end of its list or between its blocks.
unfoldable pub add_block : (fuel md i : ℕ) → State → Option State
add_block fuel md i s = on_list i (add_md fuel md) (record s {
  memory = meta_data_init md (blocks_sizes i) true nullptr nullptr (md + md_size) s.memory;
})

-- The loop of `splitBlocks_ChallengeZero`: the upper half becomes a block, `left` times.
unfoldable pub split_loop : (left fuel md index : ℕ) → State → Option State
split_loop zero fuel md index s = some s
split_loop (suc left) fuel md index s =
    add_block fuel (md + blocks_sizes (index - 1)) (index - 1) s
    >>= split_loop left fuel md (index - 1)

-- The first block is in use, with the size that is left.
unfoldable pub keep_first : (fuel md i : ℕ) → State → Option State
keep_first fuel md i s = on_list i (add_md fuel md) (record s {
  memory = meta_data_init md (blocks_sizes i) false nullptr nullptr (s.memory md).address s.memory;
})

unfoldable pub split_blocks : (fuel md index spli_n : ℕ) → State → Option State
split_blocks fuel md index spli_n s =
    if spli_n == 0
    then some s
    else on_list index (del_md fuel md) s
      >>= split_loop spli_n fuel md index
      >>= keep_first fuel md (index - spli_n)

-- The block that `findFreeSizedBlock` found is split, or the loop goes on.
unfoldable pub take_block :
    (fuel i split_num : ℕ) (rest : Option (ℕ × State)) → State → ℕ × Memory → Option (ℕ × State)
take_block fuel i split_num rest s (free_block, m) =
    if free_block == nullptr
    then rest
    else split_blocks fuel (free_block - md_size) i split_num (record s { memory = m }) >>= (λ t.
      some (free_block, record t { memory = set_free (free_block - md_size) false t.memory }))

-- The loop of `findExactSizeBlock_ChallengeZero` from the order `i`.
unfoldable pub exact_loop : (left fuel size i split_num : ℕ) → State → Option (ℕ × State)
exact_loop zero fuel size i split_num s = some (nullptr, s)
exact_loop (suc left) fuel size i split_num s =
    let large = leb size (blocks_sizes i) in
    let rest = exact_loop left fuel size (i + 1) (if large then split_num + 1 else split_num) s in
    if large
    then find_free_sized_block fuel size (s.md_list_arr i).head s.memory
      >>= take_block fuel i split_num rest s
    else rest

unfoldable pub find_exact_size_block : (fuel size : ℕ) → State → Option (ℕ × State)
find_exact_size_block fuel size s = exact_loop 11 fuel size 0 0 s

-- The bitwise exclusive or of the last `bits` bits.
unfoldable pub xor : (bits a b : ℕ) → ℕ
xor zero a b = 0
xor (suc bits) a b = (a % 2 + b % 2) % 2 + 2 * xor bits (a / 2) (b / 2)

unfoldable pub find_neighboring_block : ℕ → Memory → ℕ
find_neighboring_block md m = xor 64 md (m md).size

-- The sum of a counter over the lists of all orders.
unfoldable pub sum_lists : (left i : ℕ) → (MdList → Memory → Option ℕ) → State → Option ℕ
sum_lists zero i f s = some 0
sum_lists (suc left) i f s =
    f (s.md_list_arr i) s.memory >>= (λ n. sum_lists left (i + 1) f s >>= (λ rest. some (n + rest)))

-- A `size_t` that went through an `int`.
abbrev pub through_int : ℕ → ℕ
through_int n = if ltb (n % 2 ^ 32) (2 ^ 31) then n % 2 ^ 32 else 2 ^ 64 - 2 ^ 32 + n % 2 ^ 32

unfoldable pub num_free_blocks : (fuel : ℕ) → State → Option ℕ
num_free_blocks fuel s = sum_lists 11 0 (free_blocks_num fuel) s >>= (λ n. some (through_int n))

unfoldable pub num_free_bytes : (fuel : ℕ) → State → Option ℕ
num_free_bytes fuel s = sum_lists 11 0 (free_blocks_num_bytes fuel) s

unfoldable pub num_allocated_blocks : (fuel : ℕ) → State → Option ℕ
num_allocated_blocks fuel s =
    sum_lists 11 0 (all_blocks_num fuel) s
    >>= (λ n. all_blocks_num fuel s.mapped_list s.memory >>= (λ k. some (through_int (n + k))))

unfoldable pub num_allocated_bytes : (fuel : ℕ) → State → Option ℕ
num_allocated_bytes fuel s = sum_lists 11 0 (all_blocks_num_bytes fuel) s >>= (λ n.
    all_blocks_num_bytes fuel s.mapped_list s.memory >>= (λ k. some (through_int (n + k))))

unfoldable pub num_meta_data_bytes : (fuel : ℕ) → State → Option ℕ
num_meta_data_bytes fuel s = num_allocated_blocks fuel s >>= (λ n. some ((n * md_size) % 2 ^ 64))

-- The loop of `smalloc` over the first blocks, from the address `res`.
unfoldable pub init_loop : (left fuel res : ℕ) → State → Option State
init_loop zero fuel res s = some s
init_loop (suc left) fuel res s =
    add_block fuel res max_order s >>= init_loop left fuel (res + size_128k)

-- The first call, with the address that both calls of `sbrk` return; where one fails, the metadata
-- are written at an address that is none.
unfoldable pub initialise : (fuel : ℕ) → (sbrk : Option ℕ) → State → Option State
initialise fuel sbrk s =
    if not s.first_malloc
    then some s
    else sbrk >>= (λ pb.
      init_loop 32 fuel (pb - pb % size_128k + size_128k) (record s {
        first_malloc = false;
        md_list_arr = λ i. empty_list;
        mapped_list = empty_list;
      }))

-- The address of the data of a mapped block.
unfoldable pub map_block : (fuel tot_size : ℕ) → State → (md : ℕ) → Option (ℕ × State)
map_block fuel tot_size s md =
    let m = meta_data_init md tot_size false nullptr nullptr (md + md_size) s.memory in
    add_md fuel md (store md (record (m md) { is_mmap = true }) m, s.mapped_list)
    >>= (λ (m', l). some ((m' md).address, record s { memory = m'; mapped_list = l }))

-- `smalloc`, by what `sbrk` and `mmap` return.
unfoldable pub smalloc :
    (fuel : ℕ) → (sbrk mmap : Option ℕ) → (size : ℕ) → State → Option (ℕ × State)
smalloc fuel sbrk mmap size s = initialise fuel sbrk s >>= (λ t.
    if invalid_size size
    then some (nullptr, t)
    else if leb (md_size + size) size_128k
    then find_exact_size_block fuel (md_size + size) t
    else mmap >>= map_block fuel (md_size + size) t)
