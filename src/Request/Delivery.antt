-- ===== src/Request/Delivery.antt =====
-- The replies of `requestHandle` of OS_HW3_234123/request.c, as a client receives them.
use os.Prelude.{
  ℕ, zero, suc, ◌<◌, ◌%◌, ◌^◌, ◌≡◌, refl, sym, ap, subst, ◌∙◌, true, Option, some, List, [], ◌∷◌,
  arith, length, take, ltb, lt→ltb,
}
use os.Prelude.Int.{pos, pos_part}
use os.Request.{
  exits, maps, to_int, error_body, FileStat, Counters, error, serve_static, serve_dynamic, Handled,
  replies, hangs, undefined, parse_uri, request_handle,
}
use os.Request.Cases.{bumped, serve_cases, request_handle_cases}
use os.Request.Writes.{Shown, request_serve_static, received, reply_calls}
use os.Request.Client.{Delivered, request_error-Delivered, request_serve_static-Delivered}

-- Errors and files are delivered; what a program sends is its own.
abbrev pub Answered :
    (output : List ℕ → List ℕ → List ℕ) (content : List ℕ → List ℕ) → Shown → Handled → Type 0
Answered output content h (replies (error cause errnum shortmsg longmsg s) c) =
    Delivered (received output (reply_calls content (error cause errnum shortmsg longmsg s) h))
      (error_body cause errnum shortmsg longmsg)
Answered output content h (replies (serve_static filename filesize filetype s) c) =
    Delivered (received output (reply_calls content (serve_static filename filesize filetype s) h))
      (content filename)
Answered output content h (replies (serve_dynamic filename cgiargs s) c) = Unit
Answered output content h hangs = Unit
Answered output content h exits = Unit
Answered output content h undefined = Unit

take_whole : (n : ℕ) (xs : List ℕ) → length xs ≡ n → take n xs ≡ xs
take_whole zero [] e = refl
take_whole zero (x ∷ xs) e = absurd (omega (arith, e))
take_whole (suc n) [] e = refl
take_whole (suc n) (x ∷ xs) e = ap (λ l. x ∷ l) (take_whole n xs (omega (arith, e)))

page_Delivered :
    (output : List ℕ → List ℕ → List ℕ) (content : List ℕ → List ℕ) (h : Shown) (path : List ℕ)
    → (f : FileStat) → to_int f.size ≡ pos f.size
    → maps (to_int f.size) ≡ true
    → length (content path) ≡ f.size
    → Delivered
        (received output (
          request_serve_static path
            (take (pos_part (to_int f.size)) (content path))
            (to_int f.size)
            h))
        (content path)
page_Delivered output content h path f whole mapped size =
    let n : pos_part (to_int f.size) ≡ f.size = ap pos_part whole in
    let all : take (pos_part (to_int f.size)) (content path) ≡ content path =
      ap (λ k. take k (content path)) n ∙ take_whole f.size (content path) size in
    subst
      (λ srcp.
        Delivered (received output (request_serve_static path srcp (to_int f.size) h))
          (content path))
      (sym all)
      (request_serve_static-Delivered output path (content path) (to_int f.size) h mapped
        (size ∙ sym n))

-- Where `stat` tells the length of each file, which is below 2^31: whatever the request, if it gets a
-- reply that is an error or a file, the client finds the end of the header, behind it the error's text
-- or the file's bytes, and their number in the header.
pub request_handle-Answered :
    (output : List ℕ → List ℕ → List ℕ) (content : List ℕ → List ℕ) (h : Shown) (fuel : ℕ)
    → (stat : List ℕ → Option FileStat) (line : List ℕ) (lines : List (List ℕ)) (index : ℕ)
    → (c : Counters)
    → ((path : List ℕ) (f : FileStat)
        → stat path ≡ some f
        → (length (content path) ≡ f.size) × (f.size < 2 ^ 31))
    → Answered output content h (request_handle fuel stat line lines index c)
unfolding reply_calls
request_handle-Answered output content h fuel stat line lines index c sizes =
    request_handle_cases (Answered output content h) fuel stat line lines index c tt tt
      (λ method. request_error-Delivered output method _ _ _ h refl refl)
      (λ uri.
        let path = (parse_uri uri).filename in
        serve_cases (Answered output content h) (parse_uri uri) (stat path) index (bumped c index)
          tt tt (request_error-Delivered output path _ _ _ h refl refl)
          (request_error-Delivered output path _ _ _ h refl refl)
          (request_error-Delivered output path _ _ _ h refl refl)
          (λ f e mapped.
            page_Delivered output content h path f (whole_size f (sizes path f e).1) mapped
              (sizes path f e).0)
          (λ args. tt))
  where
    whole_size : (f : FileStat) → f.size < 2 ^ 31 → to_int f.size ≡ pos f.size
    whole_size f lt =
        let e : f.size % 2 ^ 32 ≡ f.size = omega (arith, lt) in
        let small : ltb f.size (2 ^ 31) ≡ true = lt→ltb f.size (2 ^ 31) lt in rw (e, small) refl
