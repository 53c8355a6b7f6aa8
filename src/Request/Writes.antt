-- ===== src/Request/Writes.antt =====
-- What `requestError`, `requestServeStatic` and `requestServeDynamic` of OS_HW3_234123/request.c do:
-- the texts that they write and print, and the calls between them, which succeed. A `sprintf` whose
-- `%s` is the buffer that it writes appends to it.
use os.Prelude.{take, if◌then◌else◌, ℕ, Option, none, some, List, [], ◌∷◌, ◌++◌, length}
use os.Text.{codes}
use os.Prelude.Int.{ℤ, pos_part}
use os.Request.{maps, error_body, Stats, Reply, error, serve_static, serve_dynamic, get_filetype}
use os.Request.Decimal.{decimal, six_digits}

-- `struct timeval`
pub record Timeval : Type 0 where
  pub tv_sec : ℕ
  pub tv_usec : ℕ

-- The arguments that all three functions share. The counters are those of the thread `index`.
pub record Shown : Type 0 where
  pub pick_up : Timeval
  pub dif : Timeval
  pub index : ℕ
  pub total_counter : ℕ
  pub static_counter : ℕ
  pub dynamic_counter : ℕ

-- A call that the functions make: `Rio_writen`, `printf`, `Open` with `Mmap` and `Close`, `Munmap`,
-- `exit` by the wrapper of a call that failed, and
-- `Execve` in a child process with its standard output to the client, which `WaitPid` waits for.
pub data Call : Type 0 where
  rio_writen : List ℕ → Call
  printf : List ℕ → Call
  mmap : (filename : List ℕ) (filesize : ℤ) → Call
  munmap : (filesize : ℤ) → Call
  exit : Call
  execve : (filename cgiargs : List ℕ) → Call
  wait_pid : Call

-- A text that is written and printed.
abbrev pub echo : List ℕ → List Call → List Call
echo buf calls = rio_writen buf ∷ printf buf ∷ calls

abbrev pub time_text : Timeval → List ℕ
time_text t = decimal t.tv_sec ++ codes "." ++ six_digits t.tv_usec

-- The lines about the request and its thread.
unfoldable pub stat_lines : Shown → List ℕ
stat_lines h =
    codes "Stat-Req-Arrival:: "
    ++ time_text h.pick_up
    ++ codes "\r\n"
    ++ codes "Stat-Req-Dispatch:: "
    ++ time_text h.dif
    ++ codes "\r\n"
    ++ codes "Stat-Thread-Id:: "
    ++ decimal h.index
    ++ codes "\r\n"
    ++ codes "Stat-Thread-Count:: "
    ++ decimal h.total_counter
    ++ codes "\r\n"
    ++ codes "Stat-Thread-Static:: "
    ++ decimal h.static_counter
    ++ codes "\r\n"
    ++ codes "Stat-Thread-Dynamic:: "
    ++ decimal h.dynamic_counter
    ++ codes "\r\n"

unfoldable pub request_error : (cause errnum shortmsg longmsg : List ℕ) → Shown → List Call
request_error cause errnum shortmsg longmsg h =
    let body = error_body cause errnum shortmsg longmsg in
    echo (codes "HTTP/1.0 " ++ errnum ++ codes " " ++ shortmsg ++ codes "\r\n") (
      echo (codes "Content-Type: text/html\r\n") (
        echo (codes "Content-Length: " ++ decimal (length body) ++ codes "\r\n")
          (echo (stat_lines h ++ codes "\r\n") (echo body []))))

-- `srcp` holds the bytes of the file that are mapped. Where `Mmap` fails it exits.
unfoldable pub request_serve_static : (filename srcp : List ℕ) (filesize : ℤ) → Shown → List Call
request_serve_static filename srcp filesize h =
    if maps filesize
    then mmap filename filesize
      ∷ rio_writen (
          codes "HTTP/1.0 200 OK\r\n"
          ++ codes "Server: OS-HW3 Web Server\r\n"
          ++ codes "Content-Length: "
          ++ decimal (pos_part filesize)
          ++ codes "\r\n"
          ++ codes "Content-Type: "
          ++ get_filetype filename
          ++ codes "\r\n")
      ∷ rio_writen (stat_lines h ++ codes "\r\n")
      ∷ rio_writen srcp
      ∷ munmap filesize
      ∷ []
    else mmap filename filesize ∷ exit ∷ []

unfoldable pub request_serve_dynamic : (filename cgiargs : List ℕ) → Shown → List Call
request_serve_dynamic filename cgiargs h =
    rio_writen (codes "HTTP/1.0 200 OK\r\n" ++ codes "Server: OS-HW3 Web Server\r\n")
    ∷ rio_writen (stat_lines h)
    ∷ execve filename cgiargs
    ∷ wait_pid
    ∷ []

-- What the client receives; a program writes what `output` says for its file and arguments.
abbrev pub received : (output : List ℕ → List ℕ → List ℕ) → List Call → List ℕ
received output [] = []
received output (rio_writen bytes ∷ calls) = bytes ++ received output calls
received output (printf bytes ∷ calls) = received output calls
received output (mmap filename filesize ∷ calls) = received output calls
received output (munmap filesize ∷ calls) = received output calls
received output (exit ∷ calls) = []
received output (execve filename cgiargs ∷ calls) = output filename cgiargs ++ received output calls
received output (wait_pid ∷ calls) = received output calls

-- The calls for a reply of `requestHandle`; `none` where a counter was read out of its bounds.
abbrev pub shown : (pick_up dif : Timeval) → Stats → Option Shown
shown pick_up dif s = elim s.count [
  | none ↦ none
  | some total ↦ elim s.static_count [
    | none ↦ none
    | some static ↦ elim s.dynamic_count [
      | none ↦ none
      | some dynamic ↦ some (record {
        pick_up = pick_up;
        dif = dif;
        index = s.thread_id;
        total_counter = total;
        static_counter = static;
        dynamic_counter = dynamic;
      })
    ]
  ]
]

-- `content` is what the files hold.
unfoldable pub reply_calls : (content : List ℕ → List ℕ) → Reply → Shown → List Call
reply_calls content (error cause errnum shortmsg longmsg s) h =
    request_error cause errnum shortmsg longmsg h
reply_calls content (serve_static filename filesize filetype s) h =
    request_serve_static filename (take (pos_part filesize) (content filename)) filesize h
reply_calls content (serve_dynamic filename cgiargs s) h = request_serve_dynamic filename cgiargs h
