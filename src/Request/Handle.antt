-- ===== src/Request/Handle.antt =====
-- `requestHandle` and `requestReadhdrs` of OS_HW3_234123/request.c.
use os.Prelude.{
  le→leb, lt→ltb, leb, ltb, ◌%◌, ◌^◌, ◌+◌, ℕ, zero, suc, ◌≤◌, ◌<◌, ◌≡◌, refl, sym, ◌∙◌, ◌⊎◌, Bool,
  true, false, not, ◌||◌, Option, none, some, List, [], ◌∷◌, arith, length, Bool-cases, inl, inr,
}
use mathlib.Core.Bool.{true≢false}
use os.Request.{
  exits, fits, maxline, Stats, maps, to_int, reply_error, reply_static, handle_words, Parsed,
  FileStat, Counters, Reply, error, serve_static, serve_dynamic, Handled, replies, hangs, undefined,
  stats, increment, parse_uri, read_hdrs, serve, handle_uri, request_handle, get_filetype,
}
use os.Text.{codes, str_eq, words, lower, contains}
use os.Request.Room.{length-error_body-parts}
use os.Request.Uri.{filename_short}
use os.Prelude.Int.{ℤ, pos}
use os.Request.Cases.{bumped, serve_cases, request_handle_cases}

abbrev pub crlf : List ℕ
crlf = codes "\r\n"

-- Is one of the lines the empty line that ends the header?
abbrev pub has_end : List (List ℕ) → Bool
has_end [] = false
has_end (l ∷ ls) = str_eq l crlf || has_end ls

read_hdrs_done :
    (fuel : ℕ) (l : List ℕ) (ls : List (List ℕ))
    → has_end (l ∷ ls) ≡ true
    → length ls < fuel
    → (left : List (List ℕ)) × (read_hdrs fuel l ls ≡ some left)
unfolding read_hdrs
read_hdrs_done zero l ls e lt = absurd (omega arith)
read_hdrs_done (suc fuel) l [] e lt = ([], ground arith)
read_hdrs_done (suc fuel) l (x ∷ ls) e lt = elim (Bool-cases (str_eq l crlf)) [
  | inl end ↦ (x ∷ ls, rw end)
  | inr more ↦ rw more (read_hdrs_done fuel x ls (ground arith) (omega arith))
]

read_hdrs_stuck :
    (fuel : ℕ) (l : List ℕ) (ls : List (List ℕ))
    → has_end (l ∷ ls) ≡ false
    → read_hdrs fuel l ls ≡ none
unfolding read_hdrs
read_hdrs_stuck zero l ls e = refl
read_hdrs_stuck (suc fuel) l [] e =
    let more : str_eq l crlf ≡ false = ground arith in rw more (read_hdrs_stuck fuel l [] e)
read_hdrs_stuck (suc fuel) l (x ∷ ls) e =
    let more : str_eq l crlf ≡ false = ground arith in
    rw more (read_hdrs_stuck fuel x ls (ground arith))

-- How a reply is counted: the `Stat-Thread-` lines show the counters after the request, and the
-- kind of the reply says which counter besides `total` has grown.
abbrev pub Accounted : ℕ → Counters → Handled → Type 0
Accounted index c (replies (error cause errnum shortmsg longmsg s) c') =
    (s ≡ stats c' index)
    × (c'.static ≡ c.static)
    × (c'.dynamic ≡ c.dynamic)
    × (c'.total ≡ increment c.total index)
Accounted index c (replies (serve_static filename filesize filetype s) c') =
    (s ≡ stats c' index)
    × (c'.static ≡ increment c.static index)
    × (c'.dynamic ≡ c.dynamic)
    × (c'.total ≡ increment c.total index)
Accounted index c (replies (serve_dynamic filename cgiargs s) c') =
    (s ≡ stats c' index)
    × (c'.static ≡ c.static)
    × (c'.dynamic ≡ increment c.dynamic index)
    × (c'.total ≡ increment c.total index)
Accounted index c hangs = Unit
Accounted index c exits = Unit
Accounted index c undefined = Unit

-- Every reply, errors included, counts the request once in its thread's total and, if a file or a
-- program is served, once in the static or the dynamic count, leaves the counts of other kinds as
-- they are, and shows the thread's counts with this request included.
pub request_handle-Accounted :
    (fuel : ℕ) (stat : List ℕ → Option FileStat) (line : List ℕ) (lines : List (List ℕ))
    → (index : ℕ) (c : Counters) → Accounted index c (request_handle fuel stat line lines index c)
request_handle-Accounted fuel stat line lines index c =
    request_handle_cases (Accounted index c) fuel stat line lines index c tt tt
      (λ method. (refl, refl, refl, refl))
      (λ uri.
        serve_cases (Accounted index c) (parse_uri uri) (stat (parse_uri uri).filename) index
          (bumped c index) tt tt (refl, refl, refl, refl) (refl, refl, refl, refl)
          (refl, refl, refl, refl) (λ f e mapped. (refl, refl, refl, refl))
          (λ args. (refl, refl, refl, refl)))

-- A dynamic uri always has its arguments written.
dynamic_args :
    (uri : List ℕ)
    → (parse_uri uri).is_static ≡ false
    → (args : List ℕ) × ((parse_uri uri).cgiargs ≡ some args)
unfolding parse_uri
dynamic_args uri dynamic = elim (Bool-cases (contains (codes "..") uri)) [
  | inl bad ↦ absurd (true≢false (rw bad at dynamic))
  | inr good ↦ elim (Bool-cases (contains (codes "cgi") uri)) [
    | inl cgi ↦ rw (good, cgi) (_, refl)
    | inr static ↦ absurd (true≢false (rw (good, static) at dynamic))
  ]
]

-- The errors about a file name that is not too long fit into their buffer.
error_fits :
    (cause errnum shortmsg longmsg : List ℕ) (s : Stats)
    → length cause ≤ 8018
    → length errnum + (length shortmsg + length longmsg) ≤ 84
    → fits (error cause errnum shortmsg longmsg s) ≡ true
error_fits cause errnum shortmsg longmsg s short few =
    le→leb _ maxline
      (omega (arith, short, few, length-error_body-parts cause errnum shortmsg longmsg))

reply_error_replies :
    (r : Reply) (c : Counters)
    → fits r ≡ true
    → (r' : Reply) × (c' : Counters) × (reply_error r c ≡ replies r' c')
unfolding reply_error
reply_error_replies r c e = (r, c, rw e refl)

reply_static_replies :
    (filename : List ℕ) (filesize : ℤ) (index : ℕ) (c : Counters)
    → maps filesize ≡ true
    → (r : Reply) × (c' : Counters) × (reply_static filename filesize index c ≡ replies r c')
unfolding reply_static
reply_static_replies filename filesize index c e =
    (serve_static filename filesize (get_filetype filename) (stats c index), c, rw e refl)

serve-replies :
    (p : Parsed) (o : Option FileStat) (index : ℕ) (c : Counters)
    → ((p.is_static ≡ true) ⊎ ((args : List ℕ) × (p.cgiargs ≡ some args)))
    → length p.filename ≤ 8018
    → ((f : FileStat) → o ≡ some f → maps (to_int f.size) ≡ true)
    → (r : Reply) × (c' : Counters) × (serve p o index c ≡ replies r c')
unfolding serve
serve-replies p none index c h short mapped =
    reply_error_replies _ c (error_fits p.filename _ _ _ (stats c index) short (omega arith))
serve-replies p (some f) index c h short mapped = elim (Bool-cases p.is_static) [
  | inl static ↦ elim (Bool-cases (not f.is_regular || not f.can_read)) [
    | inl bad ↦
        rw (static, bad)
          (reply_error_replies _ c
            (error_fits p.filename _ _ _ (stats c index) short (omega arith)))
    | inr good ↦
        rw (static, good) (reply_static_replies p.filename (to_int f.size) index _ (mapped f refl))
  ]
  | inr dynamic ↦ elim (Bool-cases (not f.is_regular || not f.can_execute)) [
    | inl bad ↦
        rw (dynamic, bad)
          (reply_error_replies _ c
            (error_fits p.filename _ _ _ (stats c index) short (omega arith)))
    | inr good ↦ elim h [
      | inl static ↦ absurd (true≢false (sym static ∙ dynamic))
      | inr (args, e) ↦ rw (dynamic, good, e) (_, _, refl)
    ]
  ]
]

-- A file of which all bytes can be mapped.
abbrev pub IsMappable : FileStat → Type 0
IsMappable f = (1 ≤ f.size) × (f.size < 2 ^ 31)

pub mappable_maps : (f : FileStat) → IsMappable f → to_int f.size ≡ pos f.size
mappable_maps f (le, lt) =
    let e : f.size % 2 ^ 32 ≡ f.size = omega (arith, lt) in
    let small : ltb f.size (2 ^ 31) ≡ true = lt→ltb f.size (2 ^ 31) lt in rw (e, small) refl

-- A GET request of three words or more, whose header has its empty line, gets a reply, with as much
-- fuel as there are lines, if its uri has at most 8000 bytes, and the file that the uri names, if there
-- is one, is not empty and has fewer than 2^31 bytes.
pub request_handle_replies :
    (fuel : ℕ) (stat : List ℕ → Option FileStat) (line method uri version : List ℕ)
    → (rest : List (List ℕ)) (lines : List (List ℕ)) (index : ℕ) (c : Counters)
    → words line ≡ method ∷ uri ∷ version ∷ rest
    → str_eq (lower method) (codes "get") ≡ true
    → has_end lines ≡ true
    → length lines ≤ fuel
    → length uri ≤ 8000
    → ((f : FileStat) → stat (parse_uri uri).filename ≡ some f → IsMappable f)
    → (r : Reply) × (c' : Counters) × (request_handle fuel stat line lines index c ≡ replies r c')
unfolding request_handle handle_words handle_uri
request_handle_replies fuel stat line method uri version rest [] index c scanned get ends enough
      short files =
    cc
request_handle_replies fuel stat line method uri version rest (l ∷ ls) index c scanned get ends
      enough short files =
    let read = read_hdrs_done fuel l ls ends (omega arith) in
    let p = parse_uri uri in
    let room : leb (length p.filename + 1) maxline ≡ true =
      le→leb _ maxline (omega (arith, short, filename_short uri)) in
    let served =
      serve-replies p (stat p.filename) index (bumped c index)
        (elim (Bool-cases p.is_static) [
          | inl static ↦ inl static
          | inr dynamic ↦ inr (dynamic_args uri dynamic)
        ])
        (omega (arith, short, filename_short uri))
        (λ f e. rw (mappable_maps f (files f e)) (lt→ltb_ℤ f.size (files f e).0)) in
    (
      served.0,
      served.1,
      rw (scanned, get, read.1, room, served.2, request_handle, handle_words, handle_uri) refl,
    )
  where
    lt→ltb_ℤ : (n : ℕ) → 1 ≤ n → maps (pos n) ≡ true
    lt→ltb_ℤ n le = ground (arith, le)

-- A GET request of three words or more whose header breaks off without its empty line is never
-- answered: the worker thread stays in the loop of `requestReadhdrs`, whatever the fuel.
pub request_handle_hangs :
    (fuel : ℕ) (stat : List ℕ → Option FileStat) (line method uri version : List ℕ)
    → (rest : List (List ℕ)) (l : List ℕ) (ls : List (List ℕ)) (index : ℕ) (c : Counters)
    → words line ≡ method ∷ uri ∷ version ∷ rest
    → str_eq (lower method) (codes "get") ≡ true
    → has_end (l ∷ ls) ≡ false
    → request_handle fuel stat line (l ∷ ls) index c ≡ hangs
unfolding request_handle handle_words handle_uri
request_handle_hangs fuel stat line method uri version rest l ls index c scanned get broken =
    rw (scanned, get, read_hdrs_stuck fuel l ls broken, request_handle, handle_words, handle_uri)
      refl
