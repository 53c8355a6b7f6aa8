-- ===== src/Request/Examples.antt =====
-- Requests that run, and the theorems on request.c applied to them.
use os.Prelude.{
  ℕ, zero, suc, ◌≤◌, ◌<◌, ◌+◌, ◌≡◌, ◌↔◌, ap, refl, arith, true, false, Option, none, some, List, [],
  ◌∷◌, length,
}
use os.Request.{
  FileStat, Counters, Reply, not_runnable, serve_static, replies, hangs, parse_uri, read_hdrs,
  serve, handle_uri, request_handle, get_filetype, stats, error_body, reply_error, reply_static,
  handle_words,
}
use os.Prelude.Int.{pos}
use os.Text.{codes, contains}
use os.Request.Uri.{parse_uri-contains_dots, filename_overflows}
use os.Request.Decimal.{decimal, six_digits}
use os.Request.Writes.{Shown}
use os.Request.Delivery.{Answered, request_handle-Answered}
use os.Request.Room.{error_body_room}
use os.Request.Handle.{
  Accounted, request_handle-Accounted, request_handle_replies, request_handle_hangs,
}

abbrev counters : Counters
counters = record { total = 4 ∷ 7 ∷ []; static = 1 ∷ 2 ∷ []; dynamic = 3 ∷ 5 ∷ [] }

-- A file system in which every path is a regular file that can be read and not be executed.
abbrev readable : List ℕ → Option FileStat
readable path = some (record { is_regular = true; can_read = true; can_execute = false; size = 12 })

abbrev get_line : List ℕ
get_line = codes "GET /docs/ HTTP/1.1\r\n"

abbrev header : List (List ℕ)
header = codes "Host: os\r\n" ∷ codes "\r\n" ∷ []

static_page : request_handle 2 readable get_line header 1 counters ≡ (
    let c = record counters { total = 4 ∷ 8 ∷ []; static = 1 ∷ 3 ∷ [] } in
    replies
      (serve_static (codes "./public//docs/home.html") (pos 12) (codes "text/html") (stats c 1))
      c)
unfolding request_handle handle_words handle_uri serve reply_static parse_uri read_hdrs get_filetype
static_page = refl

program_refused : request_handle 2 readable (codes "GET x.cgi?1 HTTP/1.1\r\n") header 0 counters ≡ (
    let c = record counters { total = 5 ∷ 7 ∷ [] } in
    replies (not_runnable (codes "./public/x.cgi") (stats c 0)) c)
unfolding request_handle handle_words handle_uri serve reply_error error_body parse_uri read_hdrs
program_refused = refl

parse_uri-contains_dots_example :
    contains (codes "..") (parse_uri (codes "/a/../b")).filename ≡ false
parse_uri-contains_dots_example = parse_uri-contains_dots (codes "/a/../b")

abbrev repeat : ℕ → List ℕ
repeat zero = []
repeat (suc n) = b'a' ∷ repeat n

filename_overflows_example : 8192 < length (parse_uri (repeat 8183)).filename + 1
filename_overflows_example = filename_overflows (repeat 8183) (omega arith) refl refl

request_handle-Accounted_example :
    Accounted 1 counters (request_handle 2 readable get_line header 1 counters)
request_handle-Accounted_example = request_handle-Accounted 2 readable get_line header 1 counters

-- Every file has twelve bytes.
twelve_bytes : (path : List ℕ) (f : FileStat) → readable path ≡ some f → 12 ≡ f.size
twelve_bytes path f e = ap (λ o. elim o [ none ↦ 12 | some g ↦ g.size ]) e

request_handle_replies_example :
    (r : Reply) × (c' : Counters) × (request_handle 2 readable get_line header 1 counters
      ≡ replies r c')
request_handle_replies_example =
    request_handle_replies 2 readable get_line (codes "GET") (codes "/docs/") (codes "HTTP/1.1") []
      header 1 counters refl refl refl (omega arith) (omega arith)
      (λ f e. (omega (arith, twelve_bytes [] f e), omega (arith, twelve_bytes [] f e)))

request_handle_hangs_example :
    request_handle 100 readable get_line (codes "Host: os\r\n" ∷ []) 1 counters ≡ hangs
request_handle_hangs_example =
    request_handle_hangs 100 readable get_line (codes "GET") (codes "/docs/") (codes "HTTP/1.1") []
      (codes "Host: os\r\n") [] 1 counters refl refl refl

-- A file of twelve bytes for every path, and the arguments of a reply.
abbrev twelve : List ℕ → List ℕ
twelve path = codes "hello, world"

abbrev times : Shown
times = record {
  pick_up = record { tv_sec = 1700000000; tv_usec = 42 };
  dif = record { tv_sec = 0; tv_usec = 310 };
  index = 1;
  total_counter = 8;
  static_counter = 3;
  dynamic_counter = 5;
}

decimal_text : decimal 1700000000 ≡ codes "1700000000"
unfolding decimal
decimal_text = refl

padded_text : six_digits 42 ≡ codes "000042"
unfolding six_digits decimal
padded_text = refl

request_handle-Answered_example :
    Answered (λ path args. []) twelve times (request_handle 2 readable get_line header 1 counters)
request_handle-Answered_example =
    request_handle-Answered (λ path args. []) twelve times 2 readable get_line header 1 counters
      (λ path f e. (twelve_bytes path f e, omega (arith, twelve_bytes path f e)))

error_body_room_example :
    (length (
          error_body
            (codes "POST")
            (codes "501")
            (codes "Not Implemented")
            (codes "OS-HW3 Server does not implement this method"))
        + 1
      ≤ 8192)
    ↔ (length (codes "POST") ≤ 8040)
error_body_room_example = error_body_room (codes "POST")
