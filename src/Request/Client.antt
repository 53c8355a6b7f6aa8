-- ===== src/Request/Client.antt =====
-- How a client reads what OS_HW3_234123/request.c sends: the lines of the header up to the empty one,
-- and the body behind it, of which `Content-Length` tells the length.
use os.Prelude.{
  ℕ, ◌≡◌, refl, sym, ap, ◌∙◌, Bool, true, false, not, ◌&&◌, Option, none, some, List, [], ◌∷◌, ◌++◌,
  arith, length, append_assoc, append-nil, ◌==◌, of_both, if◌then◌else◌,
}
use os.Text.{codes, contains, prefixes}
use os.Prelude.Int.{ℤ, pos_part}
use os.Request.{error_body, maps, get_filetype}
use os.Request.Decimal.{
  decimal, six_digits, value, value-decimal, occurs, occurs-append, occurs-decimal,
  occurs-six_digits,
}
use os.Request.Writes.{
  Timeval, Shown, time_text, stat_lines, request_error, request_serve_static, received,
}

-- A line in front of the others.
abbrev pub in_front : List ℕ → Option (List (List ℕ) × List ℕ) → Option (List (List ℕ) × List ℕ)
in_front l none = none
in_front l (some (ls, rest)) = some (l ∷ ls, rest)

abbrev is_empty : List ℕ → Bool
is_empty [] = true
is_empty (x ∷ xs) = false

-- The lines up to the empty one, and the bytes behind; `line` is the part of the first one that has
-- been read.
abbrev pub read_header : (line : List ℕ) → List ℕ → Option (List (List ℕ) × List ℕ)
read_header line [] = none
read_header line (x ∷ []) = none
read_header line (x ∷ y ∷ rest) =
    let behind = read_header [] rest in
    let further = read_header (line ++ x ∷ []) (y ∷ rest) in
    if (x == 13) && (y == 10)
    then if is_empty line then some ([], rest) else in_front line behind
    else further

abbrev content_length_text : List ℕ
content_length_text = codes "Content-Length: "

-- The rest of a text behind a prefix as long as the first text.
abbrev behind : List ℕ → List ℕ → List ℕ
behind [] ys = ys
behind (x ∷ xs) [] = []
behind (x ∷ xs) (y ∷ ys) = behind xs ys

-- The number in the first line about the length.
abbrev pub content_length : List (List ℕ) → Option ℕ
content_length [] = none
content_length (l ∷ ls) =
    let rest = content_length ls in
    if prefixes content_length_text l then some (value 0 (behind content_length_text l)) else rest

-- The client finds the end of the header, and behind it `body`, as long as the header says.
abbrev pub Delivered : (bytes body : List ℕ) → Type 0
Delivered bytes body =
    (lines : List (List ℕ)) × (read_header [] bytes ≡ some (lines, body))
    × (content_length lines ≡ some (length body))

-- A line that a header can have.
abbrev is_line : List ℕ → Bool
is_line l = not (is_empty l) && not (occurs 13 l)

abbrev are_lines : List (List ℕ) → Bool
are_lines [] = true
are_lines (l ∷ ls) = is_line l && are_lines ls

abbrev joined : List (List ℕ) → List ℕ → List ℕ
joined [] rest = rest
joined (l ∷ ls) rest = l ++ 13 ∷ 10 ∷ joined ls rest

read_line :
    (line l rest : List ℕ)
    → is_empty (line ++ l) ≡ false
    → occurs 13 l ≡ false
    → read_header line (l ++ 13 ∷ 10 ∷ rest) ≡ in_front (line ++ l) (read_header [] rest)
read_line line [] rest some_byte no_cr =
    let e : line ++ [] ≡ line = append-nil _ in
    let some_byte' : is_empty line ≡ false = rw e at some_byte in rw (some_byte', e) refl
read_line line (x ∷ []) rest some_byte no_cr =
    let other : (x == 13) ≡ false = ground (arith, no_cr) in
    let e : (line ++ x ∷ []) ++ [] ≡ line ++ x ∷ [] = append-nil _ in rw (other, some_byte) refl
read_line line (x ∷ y ∷ l) rest some_byte no_cr =
    let other : (x == 13) ≡ false = ground (arith, no_cr) in
    let e : (line ++ x ∷ []) ++ y ∷ l ≡ line ++ x ∷ y ∷ l = append_assoc line (x ∷ []) (y ∷ l) in
    let next = read_line (line ++ x ∷ []) (y ∷ l) rest (rw e some_byte) (ground (arith, no_cr)) in
    rw other (rw e at next)

read_lines :
    (ls : List (List ℕ)) (body : List ℕ)
    → are_lines ls ≡ true
    → read_header [] (joined ls (13 ∷ 10 ∷ body)) ≡ some (ls, body)
read_lines [] body ok = refl
read_lines (l ∷ ls) body ok =
    let first : is_empty l ≡ false = ground (arith, ok) in
    let no_cr : occurs 13 l ≡ false = ground (arith, ok) in
    let others : are_lines ls ≡ true = ground (arith, ok) in
    read_line [] l (joined ls (13 ∷ 10 ∷ body)) first no_cr
    ∙ ap (in_front l) (read_lines ls body others)

abbrev stat_texts : Shown → List (List ℕ)
stat_texts h =
    (codes "Stat-Req-Arrival:: " ++ time_text h.pick_up)
    ∷ (codes "Stat-Req-Dispatch:: " ++ time_text h.dif)
    ∷ (codes "Stat-Thread-Id:: " ++ decimal h.index)
    ∷ (codes "Stat-Thread-Count:: " ++ decimal h.total_counter)
    ∷ (codes "Stat-Thread-Static:: " ++ decimal h.static_counter)
    ∷ (codes "Stat-Thread-Dynamic:: " ++ decimal h.dynamic_counter)
    ∷ []

stat_lines-joined : (h : Shown) (rest : List ℕ) → stat_lines h ++ rest ≡ joined (stat_texts h) rest
unfolding stat_lines
stat_lines-joined h rest = simp append_assoc

no_cr-append :
    (xs ys : List ℕ) → occurs 13 xs ≡ false → occurs 13 ys ≡ false → occurs 13 (xs ++ ys) ≡ false
no_cr-append xs ys e e' = occurs-append 13 xs ys ∙ ground (e, e', arith)

next_line :
    (l : List ℕ) (ls : List (List ℕ))
    → is_empty l ≡ false
    → occurs 13 l ≡ false
    → are_lines ls ≡ true
    → are_lines (l ∷ ls) ≡ true
next_line l ls e e' h = rw (e, e') h

no_cr_time : (t : Timeval) → occurs 13 (time_text t) ≡ false
no_cr_time t =
    no_cr-append (decimal t.tv_sec ++ codes ".") (six_digits t.tv_usec)
      (no_cr-append (decimal t.tv_sec) (codes ".") (occurs-decimal 13 t.tv_sec (omega arith)) refl)
      (occurs-six_digits 13 t.tv_usec (omega arith))

stat_are_lines : (h : Shown) → are_lines (stat_texts h) ≡ true
stat_are_lines h =
    rw
      (
        no_cr_time h.pick_up,
        no_cr_time h.dif,
        occurs-decimal 13 h.index (omega arith),
        occurs-decimal 13 h.total_counter (omega arith),
        occurs-decimal 13 h.static_counter (omega arith),
        occurs-decimal 13 h.dynamic_counter (omega arith),
      )
      refl

abbrev error_texts : (errnum shortmsg : List ℕ) (n : ℕ) → Shown → List (List ℕ)
error_texts errnum shortmsg n h =
    (codes "HTTP/1.0 " ++ errnum ++ codes " " ++ shortmsg)
    ∷ codes "Content-Type: text/html"
    ∷ (codes "Content-Length: " ++ decimal n)
    ∷ stat_texts h

received-request_error :
    (output : List ℕ → List ℕ → List ℕ) (cause errnum shortmsg longmsg : List ℕ) (h : Shown)
    → (let body = error_body cause errnum shortmsg longmsg in
        received output (request_error cause errnum shortmsg longmsg h)
        ≡ joined (error_texts errnum shortmsg (length body) h) (13 ∷ 10 ∷ body))
unfolding request_error
received-request_error output cause errnum shortmsg longmsg h =
    simp (append_assoc, append-nil, stat_lines-joined h)

error_are_lines :
    (errnum shortmsg : List ℕ) (n : ℕ) (h : Shown)
    → occurs 13 errnum ≡ false
    → occurs 13 shortmsg ≡ false
    → are_lines (error_texts errnum shortmsg n h) ≡ true
error_are_lines errnum shortmsg n h e e' =
    next_line (codes "HTTP/1.0 " ++ errnum ++ codes " " ++ shortmsg)
      (codes "Content-Type: text/html" ∷ (codes "Content-Length: " ++ decimal n) ∷ stat_texts h)
      refl
      (no_cr-append (codes "HTTP/1.0 " ++ errnum ++ codes " ") shortmsg
        (no_cr-append (codes "HTTP/1.0 " ++ errnum) (codes " ")
          (no_cr-append (codes "HTTP/1.0 ") errnum refl e) refl)
        e')
      (rw (occurs-decimal 13 n (omega arith)) (stat_are_lines h))

-- An error, with a number and a message of one line each: the client finds the end of the header, the
-- error's text behind it, and its length in the header.
pub request_error-Delivered :
    (output : List ℕ → List ℕ → List ℕ) (cause errnum shortmsg longmsg : List ℕ) (h : Shown)
    → occurs 13 errnum ≡ false
    → occurs 13 shortmsg ≡ false
    → Delivered
        (received output (request_error cause errnum shortmsg longmsg h))
        (error_body cause errnum shortmsg longmsg)
request_error-Delivered output cause errnum shortmsg longmsg h e e' =
    let n = length (error_body cause errnum shortmsg longmsg) in
    (
      error_texts errnum shortmsg n h,
      ap (read_header []) (received-request_error output cause errnum shortmsg longmsg h)
          ∙ read_lines (error_texts errnum shortmsg n h) (error_body cause errnum shortmsg longmsg)
              (error_are_lines errnum shortmsg n h e e'),
      ap some (value-decimal n),
    )

no_cr-get_filetype : (filename : List ℕ) → occurs 13 (get_filetype filename) ≡ false
unfolding get_filetype
no_cr-get_filetype filename =
    of_both (λ l. occurs 13 l ≡ false) (contains (codes ".html") filename) _ _ refl
      (of_both (λ l. occurs 13 l ≡ false) (contains (codes ".gif") filename) _ _ refl
        (of_both (λ l. occurs 13 l ≡ false) (contains (codes ".jpg") filename) _ _ refl refl))

abbrev static_texts : (filetype : List ℕ) (n : ℕ) → Shown → List (List ℕ)
static_texts filetype n h =
    codes "HTTP/1.0 200 OK"
    ∷ codes "Server: OS-HW3 Web Server"
    ∷ (codes "Content-Length: " ++ decimal n)
    ∷ (codes "Content-Type: " ++ filetype)
    ∷ stat_texts h

received-request_serve_static :
    (output : List ℕ → List ℕ → List ℕ) (filename srcp : List ℕ) (filesize : ℤ) (h : Shown)
    → maps filesize ≡ true
    → received output (request_serve_static filename srcp filesize h)
      ≡ joined (static_texts (get_filetype filename) (pos_part filesize) h) (13 ∷ 10 ∷ srcp)
unfolding request_serve_static
received-request_serve_static output filename srcp filesize h mapped =
    rw mapped (simp (append_assoc, append-nil, stat_lines-joined h))

static_are_lines :
    (filetype : List ℕ) (n : ℕ) (h : Shown)
    → occurs 13 filetype ≡ false
    → are_lines (static_texts filetype n h) ≡ true
static_are_lines filetype n h e =
    rw
      (
        occurs-decimal 13 n (omega arith),
        no_cr-append (codes "Content-Type: ") filetype refl e,
        stat_are_lines h,
      )
      refl

-- A file of which as many bytes are mapped as its size says, at least one: the client finds the end
-- of the header, the bytes behind it, and their number in the header.
pub request_serve_static-Delivered :
    (output : List ℕ → List ℕ → List ℕ) (filename srcp : List ℕ) (filesize : ℤ) (h : Shown)
    → maps filesize ≡ true
    → length srcp ≡ pos_part filesize
    → Delivered (received output (request_serve_static filename srcp filesize h)) srcp
request_serve_static-Delivered output filename srcp filesize h mapped e =
    let n = pos_part filesize in
    let lines = static_texts (get_filetype filename) n h in
    (
      lines,
      ap (read_header []) (received-request_serve_static output filename srcp filesize h mapped)
          ∙ read_lines lines srcp
              (static_are_lines (get_filetype filename) n h (no_cr-get_filetype filename)),
      ap some (value-decimal n ∙ sym e),
    )
