-- ===== src/FirstFit/Blocks.antt =====
-- The list of blocks of OS_HW4_234123/malloc_2.cpp: what its searches change.
use os.Prelude.{
  ℕ, ◌+◌, ◌≤◌, ◌≡◌, refl, inl, inr, Bool, true, false, ◌&&◌, Option, none, some, List, [], ◌∷◌,
  ◌++◌, arith, leb, ◌==◌, if◌then◌else◌, length, Bool-cases,
}
use os.FirstFit.{Block, payload, put_back, take_free, give_back}

-- How many blocks are free, and the bytes of those and of all.
abbrev pub free_blocks : List Block → ℕ
free_blocks [] = 0
free_blocks (b ∷ bs) = (if b.is_free then 1 else 0) + free_blocks bs

abbrev pub free_bytes : List Block → ℕ
free_bytes [] = 0
free_bytes (b ∷ bs) = (if b.is_free then b.size else 0) + free_bytes bs

abbrev pub all_bytes : List Block → ℕ
all_bytes [] = 0
all_bytes (b ∷ bs) = b.size + all_bytes bs

-- The blocks with their metadata follow one another between `lo` and `hi`, and do not overlap.
abbrev pub Apart : (lo : ℕ) → List Block → (hi : ℕ) → Type 0
Apart lo [] hi = lo ≤ hi
Apart lo (b ∷ bs) hi = (lo ≤ b.address) × Apart (payload b + b.size) bs hi

-- The same blocks, whichever of them are free.
pub record SameBlocks (bs cs : List Block) : Type 0 where
  pub lengths : length cs ≡ length bs
  pub bytes : all_bytes cs ≡ all_bytes bs
  pub apart : (lo hi : ℕ) → Apart lo bs hi → Apart lo cs hi

cons-SameBlocks :
    (b : Block) (f : Bool) (bs cs : List Block)
    → SameBlocks bs cs
    → SameBlocks (b ∷ bs) (record b { is_free = f } ∷ cs)
cons-SameBlocks b f bs cs same = record {
  lengths = omega (arith, same.lengths);
  bytes = omega (arith, same.bytes);
  apart = λ lo hi h. (h.0, same.apart _ hi h.1);
}

self-SameBlocks : (bs : List Block) → SameBlocks bs bs
self-SameBlocks bs = record { lengths = refl; bytes = refl; apart = λ lo hi h. h }

-- `b` was free and large enough, and is in use in the new list.
abbrev pub Taken : (size : ℕ) → List Block → Option (Block × List Block) → Type 0
Taken size bs none = Unit
Taken size bs (some (b, cs)) =
    (size ≤ b.size)
    × SameBlocks bs cs
    × (free_blocks bs ≡ free_blocks cs + 1)
    × (free_bytes bs ≡ free_bytes cs + b.size)

put_back-Taken :
    (size : ℕ) (b : Block) (bs : List Block) (o : Option (Block × List Block))
    → Taken size bs o
    → Taken size (b ∷ bs) (put_back b o)
put_back-Taken size b bs none h = tt
put_back-Taken size b bs (some (c, cs)) h =
    (h.0, cons-SameBlocks b b.is_free bs cs h.1, omega (arith, h.2), omega (arith, h.3))

Taken-first :
    (size : ℕ) (b : Block) (bs : List Block)
    → (leb size b.size && b.is_free) ≡ true
    → Taken size (b ∷ bs) (some (b, record b { is_free = false } ∷ bs))
Taken-first size b bs fits =
    let free : b.is_free ≡ true = ground arith in
    (
      ground arith,
      cons-SameBlocks b false bs bs (self-SameBlocks bs),
      rw free (omega arith),
      rw free (omega arith),
    )

pub take_free-Taken : (size : ℕ) (bs : List Block) → Taken size bs (take_free size bs)
unfolding take_free
take_free-Taken size [] = tt
take_free-Taken size (b ∷ bs) = elim (Bool-cases (leb size b.size && b.is_free)) [
  | inl fits ↦ rw fits (Taken-first size b bs fits)
  | inr other ↦ rw other (put_back-Taken size b bs (take_free size bs) (take_free-Taken size bs))
]

-- `b` is the block of the pointer, and free in the new list.
abbrev pub Given : (p : ℕ) → List Block → Option (Block × List Block) → Type 0
Given p bs none = Unit
Given p bs (some (b, cs)) =
    (payload b ≡ p)
    × SameBlocks bs cs
    × (free_blocks bs + 1 ≡ free_blocks cs + (if b.is_free then 1 else 0))
    × (free_bytes bs + b.size ≡ free_bytes cs + (if b.is_free then b.size else 0))

put_back-Given :
    (p : ℕ) (b : Block) (bs : List Block) (o : Option (Block × List Block))
    → Given p bs o
    → Given p (b ∷ bs) (put_back b o)
put_back-Given p b bs none h = tt
put_back-Given p b bs (some (c, cs)) h =
    (h.0, cons-SameBlocks b b.is_free bs cs h.1, omega (arith, h.2), omega (arith, h.3))

pub give_back-Given : (p : ℕ) (bs : List Block) → Given p bs (give_back p bs)
unfolding give_back
give_back-Given p [] = tt
give_back-Given p (b ∷ bs) = elim (Bool-cases (payload b == p)) [
  | inl here ↦
      rw here
        (ground arith, cons-SameBlocks b true bs bs (self-SameBlocks bs), omega arith, omega arith)
  | inr other ↦ rw other (put_back-Given p b bs (give_back p bs) (give_back-Given p bs))
]

-- A block behind the others.
pub free_blocks-append :
    (bs cs : List Block) → free_blocks (bs ++ cs) ≡ free_blocks bs + free_blocks cs
free_blocks-append [] cs = omega arith
free_blocks-append (b ∷ bs) cs = omega (arith, free_blocks-append bs cs)

pub free_bytes-append : (bs cs : List Block) → free_bytes (bs ++ cs) ≡ free_bytes bs + free_bytes cs
free_bytes-append [] cs = omega arith
free_bytes-append (b ∷ bs) cs = omega (arith, free_bytes-append bs cs)

pub all_bytes-append : (bs cs : List Block) → all_bytes (bs ++ cs) ≡ all_bytes bs + all_bytes cs
all_bytes-append [] cs = omega arith
all_bytes-append (b ∷ bs) cs = omega (arith, all_bytes-append bs cs)

pub append-Apart :
    (lo hi : ℕ) (bs : List Block) (b : Block)
    → Apart lo bs hi
    → hi ≤ b.address
    → Apart lo (bs ++ b ∷ []) (payload b + b.size)
append-Apart lo hi [] b h behind = (omega (arith, h, behind), omega arith)
append-Apart lo hi (c ∷ bs) b h behind = (h.0, append-Apart (payload c + c.size) hi bs b h.1 behind)
