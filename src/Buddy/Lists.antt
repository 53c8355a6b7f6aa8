-- ===== src/Buddy/Lists.antt =====
-- `MallocMetadata` and `MDList` of OS_HW4_234123/malloc_3.cpp: lists whose nodes stand in the memory,
-- linked by addresses. A loop over a list has fuel, and `none` is a loop that does not end, or a use
-- of memory that is undefined.
use os.Prelude.{
  ℕ, zero, suc, ◌+◌, ◌-◌, Bool, false, ◌&&◌, Option, none, some, ltb, leb, ◌==◌, if◌then◌else◌,
}

infixl 5 ◌>>=◌
abbrev pub ◌>>=◌ {ℓ κ} : {A : Type ℓ} {B : Type κ} → Option A → (A → Option B) → Option B
none >>= f = none
some a >>= f = f a

-- `nullptr`
abbrev pub nullptr : ℕ
nullptr = 0

pub record MallocMetadata : Type 0 where
  pub size : ℕ
  pub is_free : Bool
  pub next : ℕ
  pub prev : ℕ
  pub address : ℕ
  pub is_mmap : Bool

abbrev pub Memory : Type 0
Memory = ℕ → MallocMetadata

abbrev pub md_size : ℕ
md_size = 48

-- The memory with other metadata at an address.
unfoldable pub store : ℕ → MallocMetadata → Memory → Memory
store p md m = λ a. if a == p then md else m a

abbrev pub set_next : ℕ → ℕ → Memory → Memory
set_next p q m = store p (record (m p) { next = q }) m

abbrev pub set_prev : ℕ → ℕ → Memory → Memory
set_prev p q m = store p (record (m p) { prev = q }) m

abbrev pub set_free : ℕ → Bool → Memory → Memory
set_free p b m = store p (record (m p) { is_free = b }) m

-- `metaDataInit`
unfoldable pub meta_data_init :
    (md_ptr size : ℕ) (is_fr : Bool) (nxt prv adrs : ℕ) → Memory → Memory
meta_data_init md_ptr size is_fr nxt prv adrs m =
    if md_ptr == nullptr
    then m
    else store md_ptr
        (record {
          size = size;
          is_free = is_fr;
          next = nxt;
          prev = prv;
          address = adrs;
          is_mmap = false;
        })
        m

pub record MdList : Type 0 where
  pub head : ℕ
  pub tail : ℕ

abbrev pub empty_list : MdList
empty_list = record { head = nullptr; tail = nullptr }

-- The loop of `findFreeSizedBlock` from the node `tmp`: the address of the data, or NULL, and the
-- memory with the block in use.
unfoldable pub find_free_sized_block : (fuel requested_size tmp : ℕ) → Memory → Option (ℕ × Memory)
find_free_sized_block zero requested_size tmp m = none
find_free_sized_block (suc fuel) requested_size tmp m =
    let rest = find_free_sized_block fuel requested_size (m tmp).next m in
    if tmp == nullptr
    then some (nullptr, m)
    else if (m tmp).is_free && leb requested_size (m tmp).size
    then some ((m tmp).address, set_free tmp false m)
    else rest

-- The loop of `addMD`: `nxtTmp` and `prevTmp` at its end.
unfoldable pub add_loop : (fuel address nxt_tmp prev_tmp : ℕ) → Memory → Option (ℕ × ℕ)
add_loop zero address nxt_tmp prev_tmp m = none
add_loop (suc fuel) address nxt_tmp prev_tmp m =
    let rest = add_loop fuel address (m nxt_tmp).next nxt_tmp m in
    if nxt_tmp == nullptr
    then some (nullptr, prev_tmp)
    else if ltb address (m nxt_tmp).address
    then some (nxt_tmp, prev_tmp)
    else rest

-- `addMD` behind its loop. At the head, `prev` of the old head stays as it is.
unfoldable pub link_md : (md : ℕ) → ℕ × ℕ → Memory × MdList → Memory × MdList
link_md md (nxt_tmp, prev_tmp) (m, l) =
    if nxt_tmp == nullptr
    then (set_prev md prev_tmp (set_next prev_tmp md m), record l { tail = md })
    else if nxt_tmp == l.head
    then (set_next md l.head m, record l { head = md })
    else (
      set_prev nxt_tmp md (set_next md nxt_tmp (set_prev md prev_tmp (set_next prev_tmp md m))),
      l,
    )

unfoldable pub add_md : (fuel md : ℕ) → Memory × MdList → Option (Memory × MdList)
add_md fuel md (m, l) =
    if l.head == nullptr
    then some (m, record { head = md; tail = md })
    else add_loop fuel (m md).address l.head nullptr m >>= (λ at. some (link_md md at (m, l)))

-- The loop of `delMD`: `currTmp` and `prevTmp` at its end.
unfoldable pub del_loop : (fuel address curr_tmp prev_tmp : ℕ) → Memory → Option (ℕ × ℕ)
del_loop zero address curr_tmp prev_tmp m = none
del_loop (suc fuel) address curr_tmp prev_tmp m =
    let rest = del_loop fuel address (m curr_tmp).next curr_tmp m in
    if curr_tmp == nullptr
    then some (nullptr, prev_tmp)
    else if address == (m curr_tmp).address
    then some (curr_tmp, prev_tmp)
    else rest

-- The links around the node that `delMD` takes out.
unfoldable pub bypass : (curr_tmp prev_tmp : ℕ) → Memory × MdList → Memory × MdList
bypass curr_tmp prev_tmp (m, l) =
    if curr_tmp == l.head
    then if l.head == l.tail
      then (m, empty_list)
      else (set_prev (m l.head).next nullptr m, record l { head = (m l.head).next })
    else if curr_tmp == l.tail
    then (set_next prev_tmp nullptr m, record l { tail = prev_tmp })
    else (set_prev (m curr_tmp).next prev_tmp (set_next prev_tmp (m curr_tmp).next m), l)

-- `delMD` behind its loop.
unfoldable pub unlink_md : ℕ × ℕ → Memory × MdList → Memory × MdList
unlink_md (curr_tmp, prev_tmp) (m, l) =
    let (m', l') = bypass curr_tmp prev_tmp (m, l) in
    if curr_tmp == nullptr
    then (m, l)
    else (set_next curr_tmp nullptr (set_prev curr_tmp nullptr m'), l')

unfoldable pub del_md : (fuel md : ℕ) → Memory × MdList → Option (Memory × MdList)
del_md fuel md (m, l) =
    if l.head == nullptr
    then some (m, l)
    else del_loop fuel (m md).address l.head nullptr m >>= (λ at. some (unlink_md at (m, l)))

-- The sum over the nodes of a list, from `tmp`: the loop of the four counters below.
unfoldable pub sum_loop : (fuel : ℕ) → (MallocMetadata → ℕ) → (tmp : ℕ) → Memory → Option ℕ
sum_loop zero f tmp m = none
sum_loop (suc fuel) f tmp m =
    let rest = sum_loop fuel f (m tmp).next m >>= (λ sum. some (f (m tmp) + sum)) in
    if tmp == nullptr then some 0 else rest

unfoldable pub free_blocks_num : (fuel : ℕ) → MdList → Memory → Option ℕ
free_blocks_num fuel l m = sum_loop fuel (λ md. if md.is_free then 1 else 0) l.head m

unfoldable pub free_blocks_num_bytes : (fuel : ℕ) → MdList → Memory → Option ℕ
free_blocks_num_bytes fuel l m =
    sum_loop fuel (λ md. if md.is_free then md.size - md_size else 0) l.head m

unfoldable pub all_blocks_num : (fuel : ℕ) → MdList → Memory → Option ℕ
all_blocks_num fuel l m = sum_loop fuel (λ md. 1) l.head m

unfoldable pub all_blocks_num_bytes : (fuel : ℕ) → MdList → Memory → Option ℕ
all_blocks_num_bytes fuel l m = sum_loop fuel (λ md. md.size - md_size) l.head m
