-- ===== src/Buddy/Examples.antt =====
-- Calls of the allocator that run, and the theorems on OS_HW4_234123/malloc_3.cpp applied to them.
use os.Prelude.{
  ℕ, ◌+◌, ◌≡◌, refl, true, false, Option, none, some, [], ◌∷◌, arith, if◌then◌else◌, ◌==◌,
}
use os.Buddy.Lists.{
  ◌>>=◌, nullptr, Memory, MdList, empty_list, store, meta_data_init, find_free_sized_block,
  add_loop, link_md, add_md, del_loop, bypass, unlink_md, del_md, sum_loop, free_blocks_num,
}
use os.Buddy.{
  State, size_index_loop, find_size_index_in_list, on_list, add_block, split_loop, keep_first,
  split_blocks, take_block, exact_loop, find_exact_size_block, xor, find_neighboring_block,
  sum_lists, num_free_blocks, init_loop, initialise, smalloc,
}
use os.Buddy.Kept.{Kept}
use os.Buddy.Prevs.{PrevsOfAdded}
use os.Buddy.Insert.{IsList, add_md-IsList}
use os.Buddy.Delete.{IsDeleted, del_md-IsDeleted}
use os.Buddy.Neighbours.{find_neighboring_block_halves}
use os.Buddy.Release.{merge, combine_loop, free_block, sfree}

abbrev no_memory : Memory
no_memory p = record {
  size = 0;
  is_free = false;
  next = nullptr;
  prev = nullptr;
  address = 0;
  is_mmap = false;
}

abbrev at_start : State
at_start = record {
  memory = no_memory;
  bytes = λ a. 0;
  md_list_arr = λ i. empty_list;
  mapped_list = empty_list;
  first_malloc = true;
}

-- An allocation behind others, and a release.
abbrev and_alloc : ℕ → ℕ × State → Option (ℕ × State)
and_alloc size (p, s) = smalloc 40 (some 131072) none size s

abbrev and_free : ℕ → ℕ × State → Option (ℕ × State)
and_free p (q, s) = sfree 40 p s >>= λ t. some (p, t)

abbrev address_of : Option (ℕ × State) → Option ℕ
address_of o = o >>= λ r. some r.0

-- The first block stands behind the first multiple of 128KB.
first_block : address_of (some (0, at_start) >>= and_alloc 10) ≡ some 262192
unfolding size_index_loop find_size_index_in_list on_list add_block split_loop keep_first
    split_blocks take_block exact_loop find_exact_size_block xor find_neighboring_block init_loop
    initialise smalloc store meta_data_init find_free_sized_block add_loop link_md add_md del_loop
    bypass unlink_md del_md
first_block = refl

-- Blocks that are free again are merged up to the block of 128KB.
merged_again :
    (some (0, at_start) >>= and_alloc 10 >>= and_free 262192 >>= λ r. num_free_blocks 40 r.1)
    ≡ some 32
unfolding size_index_loop find_size_index_in_list on_list add_block split_loop keep_first
    split_blocks take_block exact_loop find_exact_size_block xor find_neighboring_block init_loop
    initialise smalloc store meta_data_init find_free_sized_block add_loop link_md add_md del_loop
    bypass unlink_md del_md merge combine_loop free_block sfree sum_lists num_free_blocks
    free_blocks_num sum_loop
merged_again = refl

-- Blocks at 262144 and 262272 of 128 bytes, and at 262400 of 256 bytes, all in use. The first and the
-- last are freed; then a block of 150 bytes is at the first again, and reaches into the second, which
-- is in use.
given_twice :
    address_of (
      some (0, at_start)
      >>= and_alloc 10
      >>= and_alloc 10
      >>= and_alloc 150
      >>= and_free 262192
      >>= and_free 262448
      >>= and_alloc 150)
    ≡ some 262192
unfolding size_index_loop find_size_index_in_list on_list add_block split_loop keep_first
    split_blocks take_block exact_loop find_exact_size_block xor find_neighboring_block init_loop
    initialise smalloc store meta_data_init find_free_sized_block add_loop link_md add_md del_loop
    bypass unlink_md del_md merge combine_loop free_block sfree
given_twice = refl

-- Free blocks of 128 bytes; the one at 1024 leads to the one at 3072.
abbrev two_nodes : Memory
two_nodes p = record {
  size = 128;
  is_free = true;
  next = if p == 1024 then 3072 else nullptr;
  prev = nullptr;
  address = p + 48;
  is_mmap = false;
}

abbrev two_list : MdList
two_list = record { head = 1024; tail = 3072 }

two-IsList : IsList two_nodes two_list (1024 ∷ 3072 ∷ [])
two-IsList = record { nodes = (refl, refl, refl, (refl, refl, refl, refl)); ends = refl }

add_md-IsList_example :
    (m' : Memory) × (l' : MdList) × (add_md 3 2048 (two_nodes, two_list) ≡ some (m', l'))
    × IsList m' l' (1024 ∷ 2048 ∷ 3072 ∷ [])
    × Kept 2048 (1024 ∷ 3072 ∷ []) two_nodes m'
    × PrevsOfAdded 2048 (1024 ∷ 3072 ∷ []) two_nodes m'
add_md-IsList_example =
    add_md-IsList 2048 two_nodes two_list refl refl 3 (1024 ∷ 3072 ∷ []) two-IsList (omega arith)
      refl

del_md-IsDeleted_example :
    (r : Memory × MdList) × (del_md 3 3072 (two_nodes, two_list) ≡ some r)
    × IsDeleted 3072 two_nodes (1024 ∷ []) [] r
    × Kept 3072 (1024 ∷ 3072 ∷ []) two_nodes r.0
del_md-IsDeleted_example =
    del_md-IsDeleted 3072 two_nodes two_list 3 (1024 ∷ []) [] two-IsList (refl, (refl, tt))
      (omega arith)

find_neighboring_block_halves_example :
    (find_neighboring_block 262144 two_nodes ≡ 262272)
    × (find_neighboring_block 262272 two_nodes ≡ 262144)
find_neighboring_block_halves_example =
    find_neighboring_block_halves 7 1024 two_nodes (omega arith) refl refl
