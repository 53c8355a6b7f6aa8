-- ===== src/FirstFit/Pointers.antt =====
-- The pointers that `smalloc` of OS_HW4_234123/malloc_2.cpp returns.
use os.Prelude.{
  ℕ, ◌+◌, ◌≤◌, ◌≡◌, refl, sym, ◌∙◌, ◌⊎◌, inl, inr, true, false, ◌&&◌, Option, none, some, List, [],
  ◌∷◌, ◌++◌, arith, ltb, leb, ◌==◌, Bool-cases,
}
use mathlib.Core.Bool.{true≢false}
use os.FirstFit.{
  Block, State, size_meta_data, payload, put_back, take_free, append_block, place, allocate,
  smalloc,
}
use os.FirstFit.Blocks.{Apart}
use os.FirstFit.Counts.{IsValid, Behind}

-- The pointer is that of a block in use with at least `n` bytes.
abbrev pub InUse : (p n : ℕ) → List Block → Type 0
InUse p n [] = ⊥
InUse p n (b ∷ bs) = ((payload b ≡ p) × (b.is_free ≡ false) × (n ≤ b.size)) ⊎ InUse p n bs

-- The blocks in use stay, and `p` is a new one of them with at least `size` bytes.
pub record Grants (p size : ℕ) (bs cs : List Block) : Type 0 where
  pub granted : InUse p size cs
  pub unused : InUse p 0 bs → ⊥
  pub stays : (q n : ℕ) → InUse q n bs → InUse q n cs

Apart-le : (lo hi : ℕ) (bs : List Block) → Apart lo bs hi → lo ≤ hi
Apart-le lo hi [] apart = apart
Apart-le lo hi (b ∷ bs) apart = omega (arith, apart.0, Apart-le (payload b + b.size) hi bs apart.1)

InUse-bounds :
    (lo hi p n : ℕ) (bs : List Block)
    → Apart lo bs hi
    → InUse p n bs
    → (lo + size_meta_data ≤ p) × (p ≤ hi)
InUse-bounds lo hi p n [] apart u = elim u [ ]
InUse-bounds lo hi p n (b ∷ bs) apart (inl here) = (
  omega (arith, here.0, apart.0),
  omega (arith, here.0, Apart-le (payload b + b.size) hi bs apart.1),
)
InUse-bounds lo hi p n (b ∷ bs) apart (inr there) =
    let rest = InUse-bounds (payload b + b.size) hi p n bs apart.1 there in
    (omega (arith, rest.0, apart.0), rest.1)

abbrev Search : (lo size : ℕ) → List Block → Option (Block × List Block) → Type 0
Search lo size bs none = Unit
Search lo size bs (some (b, cs)) = Grants (payload b) size bs cs × (lo + size_meta_data ≤ payload b)

put_back-Search :
    (lo hi size : ℕ) (b : Block) (bs : List Block) (o : Option (Block × List Block))
    → Apart lo (b ∷ bs) hi
    → Search (payload b + b.size) size bs o
    → Search lo size (b ∷ bs) (put_back b o)
put_back-Search lo hi size b bs none apart h = tt
put_back-Search lo hi size b bs (some (c, cs)) apart (grants, behind) = (
  record {
    granted = inr grants.granted;
    unused = λ u. elim u [
      | inl here ↦ absurd (omega (arith, here.0, behind))
      | inr there ↦ grants.unused there
    ];
    stays = λ q n u. elim u [ inl here ↦ inl here | inr there ↦ inr (grants.stays q n there) ];
  },
  omega (arith, behind, apart.0),
)

first-Search :
    (lo hi size : ℕ) (b : Block) (bs : List Block)
    → Apart lo (b ∷ bs) hi
    → (leb size b.size && b.is_free) ≡ true
    → Search lo size (b ∷ bs) (some (b, record b { is_free = false } ∷ bs))
first-Search lo hi size b bs apart fits =
    let free : b.is_free ≡ true = ground arith in
    (
      record {
        granted = inl (refl, refl, ground arith);
        unused = λ u. elim u [
          | inl here ↦ true≢false (sym free ∙ here.1)
          | inr there ↦
              absurd (omega (arith, (InUse-bounds (payload b + b.size) hi _ 0 bs apart.1 there).0))
        ];
        stays = λ q n u. elim u [
          | inl here ↦ absurd (true≢false (sym free ∙ here.1))
          | inr there ↦ inr there
        ];
      },
      omega (arith, apart.0),
    )

take_free-Search :
    (lo hi size : ℕ) (bs : List Block) → Apart lo bs hi → Search lo size bs (take_free size bs)
unfolding take_free
take_free-Search lo hi size [] apart = tt
take_free-Search lo hi size (b ∷ bs) apart = elim (Bool-cases (leb size b.size && b.is_free)) [
  | inl fits ↦ rw fits (first-Search lo hi size b bs apart fits)
  | inr other ↦ rw other (
      put_back-Search lo hi size b bs (take_free size bs) apart
        (take_free-Search (payload b + b.size) hi size bs apart.1))
]

InUse-append : (p n : ℕ) (bs cs : List Block) → InUse p n bs ⊎ InUse p n cs → InUse p n (bs ++ cs)
InUse-append p n [] cs (inl u) = elim u [ ]
InUse-append p n [] cs (inr u) = u
InUse-append p n (b ∷ bs) cs (inl (inl here)) = inl here
InUse-append p n (b ∷ bs) cs (inl (inr there)) = inr (InUse-append p n bs cs (inl there))
InUse-append p n (b ∷ bs) cs (inr u) = inr (InUse-append p n bs cs (inr u))

-- What `smalloc` promises: NULL, and nothing has changed, or a new pointer.
abbrev pub Served : (size : ℕ) → State → Option ℕ × State → Type 0
Served size s (none, t) = t ≡ s
Served size s (some p, t) = Grants p size s.blocks t.blocks

append_block-Served :
    (hi size : ℕ) (sbrk : Option ℕ) (s : State)
    → Apart 0 s.blocks hi
    → Behind hi sbrk
    → Served size s (append_block size sbrk s)
unfolding append_block
append_block-Served hi size none s apart behind = refl
append_block-Served hi size (some address) s apart behind = record {
  granted = InUse-append _ _ s.blocks _ (inr (inl (refl, refl, omega arith)));
  unused = λ u. absurd (omega (arith, (InUse-bounds 0 hi _ 0 s.blocks apart u).1, behind));
  stays = λ q n u. InUse-append q n s.blocks _ (inl u);
}

place-Served :
    (hi size : ℕ) (sbrk : Option ℕ) (s : State) (o : Option (Block × List Block))
    → Apart 0 s.blocks hi
    → Behind hi sbrk
    → Search 0 size s.blocks o
    → Served size s (place size sbrk s o)
unfolding place
place-Served hi size sbrk s none apart behind h = append_block-Served hi size sbrk s apart behind
place-Served hi size sbrk s (some (b, bs)) apart behind h = h.0

-- `smalloc` returns NULL and changes nothing, or returns the pointer of a block of at least `size`
-- bytes that was not in use and now is, and every block in use before stays in use with its size;
-- here `sbrk` gives memory behind all that it gave before.
pub smalloc-Served :
    (hi size : ℕ) (sbrk : Option ℕ) (s : State)
    → IsValid hi s
    → Behind hi sbrk
    → Served size s (smalloc size sbrk s)
unfolding smalloc allocate
smalloc-Served hi size sbrk s is behind = elim (Bool-cases (size == 0)) [
  | inl none_asked ↦ rw none_asked refl
  | inr asked ↦ rw asked (elim (Bool-cases (ltb 100000000 size)) [
    | inl large ↦ rw large refl
    | inr small ↦ rw small (
        place-Served hi size sbrk s _ is.apart behind
          (take_free-Search 0 hi size s.blocks is.apart))
  ])
]

-- `smalloc` of 1 to 10^8 bytes returns a pointer whenever `sbrk` gives memory.
pub smalloc-some :
    (size address : ℕ) (s : State)
    → 1 ≤ size
    → size ≤ 100000000
    → (p : ℕ) × (t : State) × (smalloc size (some address) s ≡ (some p, t))
unfolding smalloc allocate place append_block
smalloc-some size address s asked small =
    let nonzero : (size == 0) ≡ false = ground arith in
    let in_range : ltb 100000000 size ≡ false = ground arith in
    rw (nonzero, in_range) (by_search (take_free size s.blocks))
  where
    by_search :
        (o : Option (Block × List Block))
        → (p : ℕ) × (t : State) × (place size (some address) s o ≡ (some p, t))
    by_search none = (_, _, refl)
    by_search (some (b, bs)) = (_, _, refl)
