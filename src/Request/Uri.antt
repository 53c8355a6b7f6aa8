-- ===== src/Request/Uri.antt =====
-- `requestParseURI` of OS_HW3_234123/request.c.
use os.Prelude.{
  ℕ, ◌+◌, ◌≤◌, ◌<◌, ◌≡◌, refl, true, false, List, [], ◌∷◌, ◌++◌, arith, length, length-append,
  append-nil, Bool-cases, inl, inr, if◌then◌else◌,
}
use os.Request.{parse_uri, ends_in_slash}
use os.Text.{codes, contains, before}

abbrev dots : List ℕ
dots = codes ".."

-- A text that is cut has no two dots if the whole has none.
contains-before :
    (c : ℕ) (xs : List ℕ) → contains dots xs ≡ false → contains dots (before c xs) ≡ false
contains-before c [] h = refl
contains-before c (x ∷ []) h = ground arith
contains-before c (x ∷ y ∷ xs) h = ground (arith, contains-before c (y ∷ xs))

-- Behind a slash the name of the default page brings none either.
contains-page :
    (xs : List ℕ)
    → contains dots xs ≡ false
    → ends_in_slash xs ≡ true
    → contains dots (xs ++ codes "home.html") ≡ false
contains-page [] h e = cc
contains-page (x ∷ []) h e = ground arith
contains-page (x ∷ y ∷ xs) h e = ground (arith, contains-page (y ∷ xs))

-- No file name that `requestParseURI` computes contains "..", whatever the uri.
pub parse_uri-contains_dots :
    (uri : List ℕ) → contains (codes "..") (parse_uri uri).filename ≡ false
unfolding parse_uri
parse_uri-contains_dots uri = elim (Bool-cases (contains dots uri)) [
  | inl bad ↦ rw bad
  | inr good ↦ rw good (elim (Bool-cases (contains (codes "cgi") uri)) [
    | inl dynamic ↦ rw dynamic (contains-before b'?' uri good)
    | inr static ↦ rw static (elim (Bool-cases (ends_in_slash uri)) [
      | inl slash ↦ rw slash (contains-page uri good slash)
      | inr plain ↦ rw (plain, append-nil) good
    ])
  ])
]

length-before : (c : ℕ) (xs : List ℕ) → length (before c xs) ≤ length xs
length-before c [] = omega arith
length-before c (x ∷ xs) = ground (arith, length-before c xs)

-- A file name is at most eighteen bytes longer than the uri.
pub filename_short : (uri : List ℕ) → length (parse_uri uri).filename ≤ length uri + 18
unfolding parse_uri
filename_short uri = elim (Bool-cases (contains dots uri)) [
  | inl bad ↦ rw bad (omega arith)
  | inr good ↦ rw good (elim (Bool-cases (contains (codes "cgi") uri)) [
    | inl dynamic ↦ rw dynamic (omega (arith, length-before b'?' uri))
    | inr static ↦ rw static (elim (Bool-cases (ends_in_slash uri)) [
      | inl slash ↦ rw slash (omega (arith, length-append uri (codes "home.html")))
      | inr plain ↦ rw (plain, append-nil) (omega arith)
    ])
  ])
]

-- A static uri of 8183 bytes or more, which the server reads into a buffer of 8192, makes a file
-- name that overflows its buffer.
pub filename_overflows :
    (uri : List ℕ)
    → 8183 ≤ length uri
    → contains (codes "..") uri ≡ false
    → contains (codes "cgi") uri ≡ false
    → 8192 < length (parse_uri uri).filename + 1
unfolding parse_uri
filename_overflows uri long good static =
    rw (good, static)
      (omega (arith, length-append uri (if ends_in_slash uri then codes "home.html" else [])))
