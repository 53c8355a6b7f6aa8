-- ===== src/Request.antt =====
-- The handling of one HTTP request in OS_HW3_234123/request.c. Texts are lists of bytes. What the
-- file system and the connection hold are arguments.

pub mod Uri
pub mod Cases
pub mod Handle
pub mod Decimal
pub mod Writes
pub mod Client
pub mod Delivery
pub mod Room
mod Examples
use os.Prelude.Int.{ℤ, pos, negsuc, ltb_ℤ}
use os.Prelude.{
  ◌-◌, ◌%◌, ◌^◌, ltb, leb, length, ℕ, zero, suc, ◌+◌, Bool, true, false, not, ◌||◌, Option, none,
  some, List, [], ◌∷◌, ◌++◌, ◌==◌, if◌then◌else◌, get_elem?, set,
}
use os.Text.{codes, str_eq, contains, before, after?, last?, words, to_lower, lower}

-- What `requestParseURI` computes: its result, the file name and the arguments. `cgiargs` is `none`
-- where the function does not write them.
pub record Parsed : Type 0 where
  pub is_static : Bool
  pub filename : List ℕ
  pub cgiargs : Option (List ℕ)

abbrev pub public : List ℕ
public = codes "./public/"

-- `uri[strlen(uri)-1] == '/'`
abbrev pub ends_in_slash : List ℕ → Bool
ends_in_slash uri = elim (last? uri) [ none ↦ false | some c ↦ c == b'/' ]

unfoldable pub parse_uri : List ℕ → Parsed
parse_uri uri =
    if contains (codes "..") uri
    then record { is_static = true; filename = codes "./public/home.html"; cgiargs = none }
    else if not (contains (codes "cgi") uri)
    then record {
      is_static = true;
      filename = public ++ uri ++ (if ends_in_slash uri then codes "home.html" else []);
      cgiargs = some [];
    }
    else record {
      is_static = false;
      filename = public ++ before b'?' uri;
      cgiargs = some (elim (after? b'?' uri) [ none ↦ [] | some args ↦ args ]);
    }

unfoldable pub get_filetype : List ℕ → List ℕ
get_filetype filename =
    if contains (codes ".html") filename
    then codes "text/html"
    else if contains (codes ".gif") filename
    then codes "image/gif"
    else if contains (codes ".jpg") filename
    then codes "image/jpeg"
    else codes "text/plain"

-- The text of an error.
unfoldable pub error_body : (cause errnum shortmsg longmsg : List ℕ) → List ℕ
error_body cause errnum shortmsg longmsg =
    codes "<html><title>OS-HW3 Error</title>"
    ++ codes "<body bgcolor=fffff>\r\n"
    ++ errnum
    ++ codes ": "
    ++ shortmsg
    ++ codes "\r\n"
    ++ codes "<p>"
    ++ longmsg
    ++ codes ": "
    ++ cause
    ++ codes "\r\n"
    ++ codes "<hr>OS-HW3 Web Server\r\n"

-- What `stat` tells of a file: S_ISREG, S_IRUSR, S_IXUSR and the size.
pub record FileStat : Type 0 where
  pub is_regular : Bool
  pub can_read : Bool
  pub can_execute : Bool
  pub size : ℕ

-- The counters of all threads.
pub record Counters : Type 0 where
  pub total : List ℕ
  pub static : List ℕ
  pub dynamic : List ℕ

-- The `Stat-Thread-` lines of a reply.
pub record Stats : Type 0 where
  pub thread_id : ℕ
  pub count : Option ℕ
  pub static_count : Option ℕ
  pub dynamic_count : Option ℕ

pub data Reply : Type 0 where
  error : (cause errnum shortmsg longmsg : List ℕ) → Stats → Reply
  serve_static : (filename : List ℕ) (filesize : ℤ) (filetype : List ℕ) → Stats → Reply
  serve_dynamic : (filename : List ℕ) (cgiargs : List ℕ) → Stats → Reply

-- How `requestHandle` ends: with a reply, never, with the exit of the whole server by a wrapper whose
-- system call fails, or in the use of memory that nothing was written to, or outside an array.
pub data Handled : Type 0 where
  replies : Reply → Counters → Handled
  hangs : Handled
  exits : Handled
  undefined : Handled

abbrev pub stats : Counters → ℕ → Stats
stats c index = record {
  thread_id = index;
  count = get_elem? c.total index;
  static_count = get_elem? c.static index;
  dynamic_count = get_elem? c.dynamic index;
}

-- `counter[index]++`
abbrev pub increment : List ℕ → ℕ → List ℕ
increment counter index = elim (get_elem? counter index) [
  | none ↦ counter
  | some n ↦ set counter index (n + 1)
]

-- The loop of `requestReadhdrs` on the lines that the connection still delivers. At the end of the
-- input `Rio_readlineb` leaves `buf` as it is. `none` means that the fuel ran out.
unfoldable pub read_hdrs : (fuel : ℕ) (buf : List ℕ) → List (List ℕ) → Option (List (List ℕ))
read_hdrs zero buf lines = none
read_hdrs (suc fuel) buf [] =
    let rest = read_hdrs fuel buf [] in if str_eq buf (codes "\r\n") then some [] else rest
read_hdrs (suc fuel) buf (l ∷ lines) =
    let rest = read_hdrs fuel l lines in
    if str_eq buf (codes "\r\n") then some (l ∷ lines) else rest

-- The four errors of `requestHandle`.
abbrev pub not_implemented : (method : List ℕ) → Stats → Reply
not_implemented method =
    error method (codes "501") (codes "Not Implemented")
      (codes "OS-HW3 Server does not implement this method")

abbrev pub not_found : (filename : List ℕ) → Stats → Reply
not_found filename =
    error filename (codes "404") (codes "Not found")
      (codes "OS-HW3 Server could not find this file")

abbrev pub not_readable : (filename : List ℕ) → Stats → Reply
not_readable filename =
    error filename (codes "403") (codes "Forbidden")
      (codes "OS-HW3 Server could not read this file")

abbrev pub not_runnable : (filename : List ℕ) → Stats → Reply
not_runnable filename =
    error filename (codes "403") (codes "Forbidden")
      (codes "OS-HW3 Server could not run this CGI program")

-- `MAXLINE` and `MAXBUF`, the room in the buffers.
abbrev pub maxline : ℕ
maxline = 8192

-- The text of an error is put together in a buffer before anything is sent.
abbrev pub fits : Reply → Bool
fits (error cause errnum shortmsg longmsg s) =
    leb (length (error_body cause errnum shortmsg longmsg) + 1) maxline
fits (serve_static filename filesize filetype s) = true
fits (serve_dynamic filename cgiargs s) = true

unfoldable pub reply_error : Reply → Counters → Handled
reply_error r c = if fits r then replies r c else undefined

-- A `st_size` that becomes an `int`.
abbrev pub to_int : ℕ → ℤ
to_int n = if ltb (n % 2 ^ 32) (2 ^ 31) then pos (n % 2 ^ 32) else negsuc (2 ^ 32 - 1 - n % 2 ^ 32)

-- `mmap` fails for 0 bytes, and for a negative number, which becomes one near 2^64.
abbrev pub maps : (filesize : ℤ) → Bool
maps filesize = ltb_ℤ (pos 0) filesize

unfoldable pub reply_static : (filename : List ℕ) (filesize : ℤ) → ℕ → Counters → Handled
reply_static filename filesize index c =
    if maps filesize
    then replies (serve_static filename filesize (get_filetype filename) (stats c index)) c
    else exits

-- The part of `requestHandle` behind `stat`.
unfoldable pub serve : Parsed → Option FileStat → ℕ → Counters → Handled
serve p none index c = reply_error (not_found p.filename (stats c index)) c
serve p (some f) index c =
    if p.is_static
    then if not f.is_regular || not f.can_read
      then reply_error (not_readable p.filename (stats c index)) c
      else reply_static p.filename (to_int f.size) index
          (record c { static = increment c.static index })
    else if not f.is_regular || not f.can_execute
    then reply_error (not_runnable p.filename (stats c index)) c
    else (let c' = record c { dynamic = increment c.dynamic index } in
        elim p.cgiargs [
          | none ↦ undefined
          | some args ↦ replies (serve_dynamic p.filename args (stats c' index)) c'
        ])

-- The request with its method and uri, and the lines behind the first. Where there are none the
-- buffer of `requestReadhdrs` is read before anything was written to it. The file name has to fit into
-- its buffer.
unfoldable pub handle_uri :
    (fuel : ℕ) (stat : List ℕ → Option FileStat) (method uri : List ℕ) (lines : List (List ℕ))
    → (index : ℕ) → Counters
    → Handled
handle_uri fuel stat method uri lines index c =
    let p = parse_uri uri in
    let served =
      if leb (length p.filename + 1) maxline
      then serve p (stat p.filename) index c
      else undefined in
    if not (str_eq (lower method) (codes "get"))
    then reply_error (not_implemented method (stats c index)) c
    else elim lines [
      | [] ↦ undefined
      | l ∷ rest ↦ elim (read_hdrs fuel l rest) [ none ↦ hangs | some left ↦ served ]
    ]

-- The words of the first line: `printf` reads the method, the uri and the version, of which `sscanf`
-- writes as many as there are.
unfoldable pub handle_words :
    (fuel : ℕ) (stat : List ℕ → Option FileStat)
    → (ws : List (List ℕ)) (lines : List (List ℕ)) (index : ℕ) → Counters
    → Handled
handle_words fuel stat [] lines index c = undefined
handle_words fuel stat (method ∷ []) lines index c = undefined
handle_words fuel stat (method ∷ uri ∷ []) lines index c = undefined
handle_words fuel stat (method ∷ uri ∷ version ∷ ws) lines index c =
    handle_uri fuel stat method uri lines index c

unfoldable pub request_handle :
    (fuel : ℕ) (stat : List ℕ → Option FileStat)
    → (line : List ℕ) (lines : List (List ℕ)) (index : ℕ) → Counters
    → Handled
request_handle fuel stat line lines index c =
    handle_words fuel stat (words line) lines index (record c { total = increment c.total index })
