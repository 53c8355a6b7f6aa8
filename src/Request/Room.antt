-- ===== src/Request/Room.antt =====
-- The buffer of `requestError` in OS_HW3_234123/request.c.
use os.Prelude.{ℕ, ◌+◌, ◌≤◌, ◌≡◌, ◌↔◌, List, arith, length, length-append}
use os.Text.{codes}
use os.Request.{error_body}

length-error_body :
    (method : List ℕ)
    → length (
        error_body method
          (codes "501")
          (codes "Not Implemented")
          (codes "OS-HW3 Server does not implement this method"))
      ≡ length method + 151
unfolding error_body
length-error_body method = simp length-append (omega arith)

pub length-error_body-parts :
    (cause errnum shortmsg longmsg : List ℕ)
    → length (error_body cause errnum shortmsg longmsg)
      ≡ length cause + (length errnum + (length shortmsg + length longmsg)) + 89
unfolding error_body
length-error_body-parts cause errnum shortmsg longmsg = simp length-append (omega arith)

-- The buffer for the text of an error has room for 8192 bytes. The error about a method that is not
-- implemented, with its final 0, fits into it if the method has at most 8040 bytes, and only then.
pub error_body_room :
    (method : List ℕ)
    → (length (
            error_body method
              (codes "501")
              (codes "Not Implemented")
              (codes "OS-HW3 Server does not implement this method"))
          + 1
        ≤ 8192)
      ↔ (length method ≤ 8040)
error_body_room method =
    let e = length-error_body method in (λ le. omega (arith, e, le), λ le. omega (arith, e, le))
