-- ===== src/ReqQ/Heap.antt =====
-- The nodes of OS_HW3_234123/reqQ.c at addresses, and the commands that read and write them.
use os.Prelude.{ℕ, Option, none, some, ◌==◌, if◌then◌else◌}
use os.Prelude.Int.{ℤ}

abbrev pub Ptr : Type 0
Ptr = ℕ

abbrev pub null : Ptr
null = 0

-- `struct req`; `fd` is its member `data`, and a time is the address of a `struct timeval`.
pub record Req : Type 0 where
  pub insertion_time : Ptr
  pub fd : ℤ
  pub next : Ptr
  pub previous : Ptr

abbrev pub Heap : Type 0
Heap = Ptr → Option Req

unfoldable pub write : (h : Heap) (at : Ptr) (cell : Option Req) → Heap
write h at cell p = if p == at then cell else h p

-- `fault` is an access through NULL or through an address that holds no node.
pub data Run (A : Type 0) : Type 0 where
  fault : Run A
  done : (result : A) (after : Heap) → Run A

abbrev pub Cmd : (A : Type 0) → Type 0
Cmd A = (before : Heap) → Run A

abbrev pub pure : {A : Type 0} (result : A) → Cmd A
pure result before = done result before

abbrev pub resume : {A B : Type 0} (rest : A → Cmd B) → Run A → Run B
resume rest fault = fault
resume rest (done r after) = rest r after

infixl 5 ◌>>◌ ◌>>=◌
abbrev pub ◌>>=◌ : {A B : Type 0} (c : Cmd A) (rest : A → Cmd B) → Cmd B
c >>= rest = λ before. resume rest (c before)

abbrev pub ◌>>◌ : {A B : Type 0} (c : Cmd A) (rest : Cmd B) → Cmd B
c >> rest = c >>= λ _. rest

-- The raw write: `some r` fills the address, `none` gives it back.
abbrev pub store : Ptr → Option Req → Cmd (Unit {0})
store p c h = done tt (write h p c)

unfoldable pub load : Ptr → Cmd Req
load p h = if p == null then fault else elim (h p) [ none ↦ fault | some r ↦ done r h ]

unfoldable pub free : Ptr → Cmd (Unit {0})
free p = load p >> store p none

unfoldable pub set_next : Ptr → Ptr → Cmd (Unit {0})
set_next p q = do r ← load p; store p (some (record r { next = q }))

unfoldable pub set_previous : Ptr → Ptr → Cmd (Unit {0})
set_previous p q = do r ← load p; store p (some (record r { previous = q }))

unfoldable pub set_time : Ptr → Ptr → Cmd (Unit {0})
set_time p t = do r ← load p; store p (some (record r { insertion_time = t }))

-- Total correctness of a run: it does not fault, and its result satisfies `P`.
abbrev pub Returns : {A : Type 0} → (A → Heap → Type 0) → Run A → Type 0
Returns P (done a h) = P a h
Returns P fault = ⊥
