-- ===== src/Plain/Beside.antt =====
-- `smalloc` of OS_HW4_234123/malloc_1.cpp beside that of OS_HW4_234123/malloc_2.cpp.
use os.Prelude.{ℕ, ◌+◌, ◌≡◌, refl, Option, none, some, ltb, ◌==◌, Bool-cases, inl, inr}
use os.Plain.{smalloc}
use os.FirstFit.{Block, State, size_meta_data, take_free, append_block, place, allocate}

abbrev behind_meta_data : Option ℕ → Option ℕ
behind_meta_data none = none
behind_meta_data (some p) = some (p + size_meta_data)

-- While no free block fits, the first-fit allocator returns the address behind the metadata that it
-- puts where the plain allocator's block would start, and NULL when that returns NULL.
pub smalloc_first_fit :
    (size : ℕ) (sbrk : Option ℕ) (s : State)
    → take_free size s.blocks ≡ none
    → (os.FirstFit.smalloc size sbrk s).0 ≡ behind_meta_data (smalloc size sbrk)
unfolding smalloc os.FirstFit.smalloc allocate place append_block
smalloc_first_fit size sbrk s no_fit = elim (Bool-cases (size == 0)) [
  | inl nothing ↦ rw nothing refl
  | inr asked ↦ elim (Bool-cases (ltb 100000000 size)) [
    | inl large ↦ rw (asked, large) refl
    | inr small ↦ rw (asked, small, no_fit) (appended sbrk)
  ]
]
  where
    appended : (o : Option ℕ) → (append_block size o s).0 ≡ behind_meta_data o
    appended none = refl
    appended (some p) = refl
