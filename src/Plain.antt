-- ===== src/Plain.antt =====
-- The allocator of OS_HW4_234123/malloc_1.cpp, which never gives a block again. What `sbrk` returns is
-- an argument: an address, or -1.
pub mod Beside
use os.Prelude.{ℕ, Option, none, ltb, ◌==◌, if◌then◌else◌}

-- The address that is returned, or NULL.
unfoldable pub smalloc : (size : ℕ) (sbrk : Option ℕ) → Option ℕ
smalloc size sbrk = if size == 0 then none else if ltb 100000000 size then none else sbrk
