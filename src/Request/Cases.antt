-- ===== src/Request/Cases.antt =====
-- The ways in which `requestHandle` of OS_HW3_234123/request.c ends.
use os.Prelude.{
  ℕ, ◌+◌, ◌≡◌, refl, true, not, ◌||◌, Option, none, some, List, [], ◌∷◌, of_both, if◌then◌else◌,
  leb, length, Bool-cases, inl, inr,
}
use os.Prelude.Int.{ℤ}
use os.Request.{
  Parsed, FileStat, Counters, Reply, serve_static, serve_dynamic, not_implemented, not_found,
  not_readable, not_runnable, get_filetype, Handled, replies, hangs, exits, undefined, stats,
  increment, parse_uri, maxline, fits, reply_error, to_int, maps, reply_static, read_hdrs, serve,
  handle_uri, handle_words, request_handle,
}
use os.Text.{codes, str_eq, words, lower}

abbrev pub bumped : Counters → ℕ → Counters
bumped c index = record c { total = increment c.total index }

reply_error_cases :
    (P : Handled → Type 0) (r : Reply) (c : Counters)
    → P undefined
    → P (replies r c)
    → P (reply_error r c)
unfolding reply_error
reply_error_cases P r c undef replied = of_both P (fits r) _ _ replied undef

reply_static_cases :
    (P : Handled → Type 0) (filename : List ℕ) (filesize : ℤ) (index : ℕ) (c : Counters)
    → P exits
    → (maps filesize ≡ true
        → P (replies (serve_static filename filesize (get_filetype filename) (stats c index)) c))
    → P (reply_static filename filesize index c)
unfolding reply_static
reply_static_cases P filename filesize index c ended page = elim (Bool-cases (maps filesize)) [
  | inl mapped ↦ rw mapped (page mapped)
  | inr failed ↦ rw failed ended
]

-- What holds of every way in which the part behind `stat` can end.
pub serve_cases :
    (P : Handled → Type 0) (p : Parsed) (o : Option FileStat) (index : ℕ) (c : Counters)
    → P undefined
    → P exits
    → P (replies (not_found p.filename (stats c index)) c)
    → P (replies (not_readable p.filename (stats c index)) c)
    → P (replies (not_runnable p.filename (stats c index)) c)
    → ((f : FileStat)
        → o ≡ some f
        → maps (to_int f.size) ≡ true
        → (let c' = record c { static = increment c.static index } in
            P (
              replies
                (serve_static p.filename (to_int f.size) (get_filetype p.filename) (stats c' index))
                c')))
    → ((args : List ℕ)
        → (let c' = record c { dynamic = increment c.dynamic index } in
            P (replies (serve_dynamic p.filename args (stats c' index)) c')))
    → P (serve p o index c)
unfolding serve
serve_cases P p none index c undef ended missing unreadable unrunnable page program =
    reply_error_cases P _ c undef missing
serve_cases P p (some f) index c undef ended missing unreadable unrunnable page program =
    of_both P p.is_static _ _
      (of_both P (not f.is_regular || not f.can_read) _ _ (reply_error_cases P _ c undef unreadable)
        (reply_static_cases P p.filename (to_int f.size) index
          (record c { static = increment c.static index }) ended (page f refl)))
      (of_both P (not f.is_regular || not f.can_execute) _ _
        (reply_error_cases P _ c undef unrunnable) (by_args p.cgiargs))
  where
    by_args :
        (args : Option (List ℕ))
        → P (elim args [
          | none ↦ undefined
          | some args ↦
              let c' = record c { dynamic = increment c.dynamic index } in
              replies (serve_dynamic p.filename args (stats c' index)) c'
        ])
    by_args none = undef
    by_args (some args) = program args

-- What holds of every way in which a request can end.
pub request_handle_cases :
    (P : Handled → Type 0) (fuel : ℕ) (stat : List ℕ → Option FileStat) (line : List ℕ)
    → (lines : List (List ℕ)) (index : ℕ) (c : Counters) → P hangs
    → P undefined
    → ((method : List ℕ)
        → (let c' = bumped c index in P (replies (not_implemented method (stats c' index)) c')))
    → ((uri : List ℕ)
        → (let p = parse_uri uri in P (serve p (stat p.filename) index (bumped c index))))
    → P (request_handle fuel stat line lines index c)
unfolding request_handle handle_words handle_uri
request_handle_cases P fuel stat line lines index c hang undef other served = by_words (words line)
  where
    served_or_not : (uri : List ℕ) → Handled
    served_or_not uri =
        let p = parse_uri uri in
        if leb (length p.filename + 1) maxline
        then serve p (stat p.filename) index (bumped c index)
        else undefined

    by_read :
        (uri : List ℕ) (left : Option (List (List ℕ)))
        → P (elim left [ none ↦ hangs | some l ↦ served_or_not uri ])
    by_read uri none = hang
    by_read uri (some l) =
        of_both P (leb (length (parse_uri uri).filename + 1) maxline) _ _ (served uri) undef

    by_lines :
        (uri : List ℕ) (ls : List (List ℕ))
        → P (elim ls [
          | [] ↦ undefined
          | l ∷ rest ↦ elim (read_hdrs fuel l rest) [ none ↦ hangs | some left ↦ served_or_not uri ]
        ])
    by_lines uri [] = undef
    by_lines uri (l ∷ rest) = by_read uri (read_hdrs fuel l rest)

    by_words : (ws : List (List ℕ)) → P (handle_words fuel stat ws lines index (bumped c index))
    by_words [] = undef
    by_words (method ∷ []) = undef
    by_words (method ∷ uri ∷ []) = undef
    by_words (method ∷ uri ∷ version ∷ ws) =
        of_both P (not (str_eq (lower method) (codes "get"))) _ _
          (reply_error_cases P _ (bumped c index) undef (other method)) (by_lines uri lines)
