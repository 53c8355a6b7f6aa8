-- ===== src/Buddy/Release.antt =====
-- `scalloc`, `sfree` and `srealloc` of OS_HW4_234123/malloc_3.cpp. `munmap` leaves the model's memory
-- as it is.
use os.Prelude.{
  ℕ, zero, suc, ◌+◌, ◌-◌, ◌*◌, ◌%◌, ◌^◌, Bool, true, false, not, ◌&&◌, ◌||◌, Option, none, some,
  ltb, leb, ◌==◌, if◌then◌else◌,
}
use os.Buddy.Lists.{◌>>=◌, nullptr, Memory, md_size, store, set_free, add_md, del_md}
use os.Buddy.{State, size_128k, find_size_index_in_list, on_list, find_neighboring_block, smalloc}

-- `memset` and `memmove` on the bytes outside the metadata.
abbrev pub cleared : (adrs size : ℕ) → (ℕ → ℕ) → ℕ → ℕ
cleared adrs size bytes a = if leb adrs a && ltb a (adrs + size) then 0 else bytes a

abbrev pub moved : (new_md oldp size : ℕ) → (ℕ → ℕ) → ℕ → ℕ
moved new_md oldp size bytes a =
    if leb new_md a && ltb a (new_md + size) then bytes (oldp + (a - new_md)) else bytes a

abbrev pub clear_block : (size : ℕ) → ℕ × State → ℕ × State
clear_block size (adrs, s) =
    if adrs == nullptr then (nullptr, s) else (adrs, record s { bytes = cleared adrs size s.bytes })

unfoldable pub scalloc :
    (fuel : ℕ) → (sbrk mmap : Option ℕ) → (num size : ℕ) → State → Option (ℕ × State)
scalloc fuel sbrk mmap num size s =
    let tot_size = (size * num) % 2 ^ 64 in
    if (size == 0) || (num == 0)
    then some (nullptr, s)
    else if ltb 100000000 tot_size
    then some (nullptr, s)
    else smalloc fuel sbrk mmap tot_size s >>= (λ r. some (clear_block tot_size r))

abbrev pub set_memory : Memory → State → State
set_memory m s = record s { memory = m }

-- The size of a block, twice.
abbrev pub double_size : ℕ → State → State
double_size p s =
    set_memory (store p (record (s.memory p) { size = (s.memory p).size * 2 }) s.memory) s

-- A block and its neighbour become one block, at `first`, of the next order.
unfoldable pub merge : (fuel first md neigh_md i : ℕ) → (free : Bool) → State → Option State
merge fuel first md neigh_md i free s =
    on_list i (del_md fuel md) s >>= on_list i (del_md fuel neigh_md) >>= (λ t.
      let doubled = double_size first t in
      let m = if free then set_free first true doubled.memory else doubled.memory in
      on_list (i + 1) (add_md fuel first) (set_memory m doubled))

-- The block of the two that is first in the memory.
abbrev pub lower : (res neigh_md : ℕ) → Memory → ℕ
lower res neigh_md m = if ltb (m neigh_md).address (m res).address then neigh_md else res

-- The loop of `sfree`; `rounds` is its fuel.
unfoldable pub combine_loop : (rounds fuel res neigh_md : ℕ) → State → Option State
combine_loop zero fuel res neigh_md s = none
combine_loop (suc rounds) fuel res neigh_md s =
    let res' = lower res neigh_md s.memory in
    if (s.memory neigh_md).is_free && ltb (s.memory res).size size_128k
    then find_size_index_in_list (s.memory res).size
      >>= (λ i. merge fuel res' res neigh_md i true s)
      >>= (λ t.
          if (t.memory res').size == size_128k
          then some t
          else combine_loop rounds fuel res' (find_neighboring_block res' t.memory) t)
    else some s

unfoldable pub unmap : (fuel md : ℕ) → State → Option State
unmap fuel md s =
    del_md fuel md (s.memory, s.mapped_list)
    >>= (λ (m, l). some (record s { memory = m; mapped_list = l }))

-- A block that is in use, and not a mapped one.
unfoldable pub free_block : (fuel res : ℕ) → State → Option State
free_block fuel res s =
    let t = set_memory (set_free res true s.memory) s in
    let neigh_md = find_neighboring_block res t.memory in
    if (s.memory res).size == size_128k
    then some t
    else if not (t.memory neigh_md).is_free
    then some t
    else combine_loop fuel fuel res neigh_md t

unfoldable pub sfree : (fuel p : ℕ) → State → Option State
sfree fuel p s =
    let res = p - md_size in
    if p == nullptr
    then some s
    else if (s.memory res).is_free
    then some s
    else if ltb size_128k (s.memory res).size || (s.memory res).is_mmap
    then unmap fuel res s
    else free_block fuel res s

-- The loop of `srealloc`: the block grows at its own address. Where the loop ends before it is large
-- enough, `newMD` is not written, and then read.
unfoldable pub grow_loop : (rounds fuel current neigh_md new_size : ℕ) → State → Option (ℕ × State)
grow_loop zero fuel current neigh_md new_size s = none
grow_loop (suc rounds) fuel current neigh_md new_size s =
    if (s.memory neigh_md).is_free && ltb (s.memory neigh_md).size size_128k
    then find_size_index_in_list (s.memory current).size
      >>= (λ i. merge fuel current current neigh_md i false s)
      >>= (λ t.
          if leb new_size (t.memory current).size
          then some ((t.memory current).address, t)
          else grow_loop rounds fuel current (find_neighboring_block current t.memory) new_size t)
    else none

abbrev pub move_data : (oldp current : ℕ) → ℕ × State → ℕ × State
move_data oldp current (new_md, s) =
    (new_md, record s { bytes = moved new_md oldp (s.memory current).size s.bytes })

-- A new block for the data, or the old one in use again.
abbrev pub relocate : (oldp current : ℕ) → ℕ × State → ℕ × State
relocate oldp current (new_md, s) =
    if new_md == nullptr
    then (nullptr, set_memory (set_free current false s.memory) s)
    else move_data oldp current (new_md, s)

-- The old block is unmapped before it is taken from its list, which reads it.
abbrev pub unmap_old : (current : ℕ) → ℕ × State → Option (ℕ × State)
unmap_old current (new_md, s) =
    if (new_md == nullptr) || not (s.memory current).is_mmap then some (new_md, s) else none

-- The block is too small.
unfoldable pub replace :
    (fuel : ℕ) → (sbrk mmap : Option ℕ) → (oldp size : ℕ) → State → Option (ℕ × State)
replace fuel sbrk mmap oldp size s =
    let current = oldp - md_size in
    let neigh_md = find_neighboring_block current s.memory in
    (if (s.memory neigh_md).is_free
      then grow_loop fuel fuel current neigh_md ((size + md_size) % 2 ^ 64) s
        >>= (λ r. some (move_data oldp current r))
      else smalloc fuel sbrk mmap size (set_memory (set_free current true s.memory) s)
        >>= (λ r. some (relocate oldp current r)))
    >>= unmap_old current

unfoldable pub srealloc :
    (fuel : ℕ) → (sbrk mmap : Option ℕ) → (oldp size : ℕ) → State → Option (ℕ × State)
srealloc fuel sbrk mmap oldp size s =
    let current = oldp - md_size in
    let new_size = (size + md_size) % 2 ^ 64 in
    if size == 0
    then some (nullptr, s)
    else if oldp == nullptr
    then smalloc fuel sbrk mmap size s
    else if ((s.memory current).size == new_size)
        || (leb new_size (s.memory current).size && not (s.memory current).is_mmap)
    then some (oldp, s)
    else replace fuel sbrk mmap oldp size s
