-- ===== src/ReqQ/Links.antt =====
-- What the nodes of a queue of OS_HW3_234123/reqQ.c stand for: doubly linked segments, their
-- footprints, and how they are split and joined.
use os.Prelude.{
  ◌≡◌, ◌≢◌, refl, ◌∙◌, Bool, true, false, ◌||◌, Option, none, some, List, [], ◌∷◌, ◌++◌, arith,
  ◌==◌, Bool-cases, inl, inr,
}
use os.Prelude.Int.{ℤ}
use os.ReqQ.Heap.{Ptr, null, Req, Heap, write}

pub record Entry : Type 0 where
  pub fd : ℤ
  pub time : Ptr

-- Address and contents of each node, in order.
abbrev pub Cells : Type 0
Cells = List (Ptr × Entry)

abbrev pub req : Entry → Ptr → Ptr → Req
req e next previous = record {
  insertion_time = e.time;
  fd = e.fd;
  next = next;
  previous = previous;
}

-- Is it the address of one of the nodes?
abbrev pub has : (at : Ptr) → Cells → Bool
has at [] = false
has at ((p, e) ∷ more) = (at == p) || has at more

abbrev pub first_or : Ptr → Cells → Ptr
first_or d [] = d
first_or d ((p, _) ∷ xs) = p

abbrev pub last_or : Ptr → Cells → Ptr
last_or d [] = d
last_or d ((p, _) ∷ xs) = last_or p xs

-- The distinct nodes `xs` follow one another; `previous` of the first is `q`, `next` of the last `r`.
abbrev pub Linked : Heap → Ptr → Cells → Ptr → Type 0
Linked h q [] r = Unit {0}
Linked h q ((p, e) ∷ xs) r =
    (p ≢ null) × (h p ≡ some (req e (first_or r xs) q)) × (has p xs ≡ false) × Linked h p xs r

abbrev pub Apart : Cells → Cells → Type 0
Apart xs ys = (a : Ptr) → has a xs ≡ true → has a ys ≡ false

-- `g` differs from `h` at most at the addresses of `xs`.
abbrev pub SameOutside : Cells → Heap → Heap → Type 0
SameOutside xs h g = (a : Ptr) → has a xs ≡ false → g a ≡ h a

pub has-append :
    (at : Ptr) (front back : Cells) → has at (front ++ back) ≡ (has at front || has at back)
has-append at [] back = refl
has-append at ((p, e) ∷ more) back = ground (arith, has-append at more back)

pub first_or-append :
    (d : Ptr) (xs ys : Cells) → first_or d (xs ++ ys) ≡ first_or (first_or d ys) xs
first_or-append d [] ys = refl
first_or-append d (x ∷ xs) ys = refl

pub last_or-append : (d : Ptr) (xs ys : Cells) → last_or d (xs ++ ys) ≡ last_or (last_or d xs) ys
last_or-append d [] ys = refl
last_or-append d ((p, e) ∷ xs) ys = last_or-append p xs ys

pub ne_of_has : (a p : Ptr) (xs : Cells) → has a xs ≡ true → has p xs ≡ false → (a == p) ≡ false
ne_of_has a p [] i out = cc
ne_of_has a p ((p', e) ∷ xs) i out = ground (arith, ne_of_has a p xs)

pub other_of_has : (a p : Ptr) (xs : Cells) → has a xs ≡ true → has p xs ≡ false → (p == a) ≡ false
other_of_has a p [] i out = cc
other_of_has a p ((p', e) ∷ xs) i out = ground (arith, other_of_has a p xs)

pub write_self : (h : Heap) (p : Ptr) (c : Option Req) → write h p c p ≡ c
unfolding write
write_self h p c = ground arith

pub write_ne : (h : Heap) (p a : Ptr) (c : Option Req) → (a == p) ≡ false → write h p c a ≡ h a
unfolding write
write_ne h p a c e = rw e

pub frame :
    (h g : Heap) (q : Ptr) (xs : Cells) (r : Ptr)
    → ((a : Ptr) → has a xs ≡ true → g a ≡ h a)
    → Linked h q xs r
    → Linked g q xs r
frame h g q [] r same l = tt
frame h g q ((p, e) ∷ xs) r same l =
    (l.0, ground (arith, same p), l.2, frame h g p xs r (λ a i. same a (ground arith)) l.3)

pub frame-write :
    (h : Heap) (p : Ptr) (c : Option Req) (q : Ptr) (xs : Cells) (r : Ptr)
    → has p xs ≡ false
    → Linked h q xs r
    → Linked (write h p c) q xs r
frame-write h p c q xs r out l =
    frame h _ q xs r (λ a i. write_ne h p a c (ne_of_has a p xs i out)) l

pub Linked-split :
    (h : Heap) (q : Ptr) (xs ys : Cells) (r : Ptr)
    → Linked h q (xs ++ ys) r
    → Linked h q xs (first_or r ys) × Linked h (last_or q xs) ys r × Apart xs ys
Linked-split h q [] ys r l = (tt, l, λ a i. cc)
Linked-split h q ((p, e) ∷ xs) ys r l =
    let rest = Linked-split h p xs ys r l.3 in
    (
      (l.0, ground (arith, first_or-append r xs ys), ground (arith, has-append p xs ys), rest.0),
      rest.1,
      λ a i. ground (arith, has-append p xs ys, rest.2 a),
    )

pub Linked-join :
    (h : Heap) (q : Ptr) (xs ys : Cells) (r : Ptr)
    → Linked h q xs (first_or r ys)
    → Linked h (last_or q xs) ys r
    → Apart xs ys
    → Linked h q (xs ++ ys) r
Linked-join h q [] ys r l m apart = m
Linked-join h q ((p, e) ∷ xs) ys r l m apart = (
  l.0,
  ground (arith, first_or-append r xs ys),
  ground (arith, has-append p xs ys, apart p),
  Linked-join h p xs ys r l.3 m (λ a i. apart a (ground arith)),
)

-- No node stands at an unused address, nor at NULL.
pub not-has_of_none :
    (h : Heap) (a q : Ptr) (xs : Cells) (r : Ptr) → Linked h q xs r → h a ≡ none → has a xs ≡ false
not-has_of_none h a q [] r l unused = refl
not-has_of_none h a q ((p, e) ∷ xs) r l unused = ground (arith, not-has_of_none h a p xs r l.3)

-- The last node, and a write of its `next`.
pub record IsLast (h : Heap) (p q : Ptr) (xs : Cells) (r : Ptr) : Type 0 where
  pub node : Req
  pub holds : h p ≡ some node
  pub ne_null : p ≢ null
  pub member : has p xs ≡ true
  pub next_is : node.next ≡ r
  pub relink : (r' : Ptr) → Linked (write h p (some (record node { next = r' }))) q xs r'

pub Linked-IsLast :
    (h : Heap) (q p : Ptr) (e : Entry) (xs : Cells) (r : Ptr)
    → Linked h q ((p, e) ∷ xs) r
    → IsLast h (last_or p xs) q ((p, e) ∷ xs) r
Linked-IsLast h q p e [] r l = record {
  node = req e r q;
  holds = l.1;
  ne_null = l.0;
  member = ground arith;
  next_is = refl;
  relink = λ r'. (l.0, write_self h p _, refl, tt);
}
Linked-IsLast h q p e ((p', e') ∷ xs) r l =
    let rest = Linked-IsLast h p p' e' xs r l.3 in
    record {
      node = rest.node;
      holds = rest.holds;
      ne_null = rest.ne_null;
      member = rw rest.member (ground arith);
      next_is = rest.next_is;
      relink = λ r'. (
        l.0,
        write_ne h _ p _ (other_of_has _ p ((p', e') ∷ xs) rest.member l.2) ∙ l.1,
        l.2,
        rest.relink r',
      );
    }

pub eq_sym_false : (a b : Ptr) → (a == b) ≡ false → (b == a) ≡ false
eq_sym_false a b e = ground arith

-- The only address of `xs` in front of a node that is not among the others.
pub freed_head :
    (h : Heap) (p a : Ptr) (e : Entry) (xs : Cells)
    → has a ((p, e) ∷ xs) ≡ true
    → has a xs ≡ false
    → write h p none a ≡ none
unfolding write
freed_head h p a e xs i out = ground arith

pub not-has_of_Apart :
    (p : Ptr) (e : Entry) (xs ys : Cells) → Apart xs ((p, e) ∷ ys) → has p xs ≡ false
not-has_of_Apart p e xs ys apart = elim (Bool-cases (has p xs)) [
  | inl i ↦ ground (arith, apart p)
  | inr out ↦ out
]

pub has_only :
    (a p : Ptr) (e : Entry) (xs ys : Cells)
    → has a (xs ++ (p, e) ∷ ys) ≡ true
    → has a (xs ++ ys) ≡ false
    → (a == p) ≡ true
has_only a p e [] ys i out = ground arith
has_only a p e ((p', e') ∷ xs) ys i out = ground (arith, has_only a p e xs ys)

pub write_at : (h : Heap) (p a : Ptr) (c : Option Req) → (a == p) ≡ true → write h p c a ≡ c
unfolding write
write_at h p a c e = rw e

pub ne_null-false : (p : Ptr) → p ≢ null → (p == null) ≡ false
ne_null-false p there = ground arith
