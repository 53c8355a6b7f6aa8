-- ===== src/ReqQ/Fifo.antt =====
-- The contract of OS_HW3_234123/reqQ.c for its callers: a bounded list of entries, oldest first.
use os.Prelude.{ℕ, ◌+◌, List, [], ◌∷◌, if◌then◌else◌, length, get_elem?}
use os.Prelude.Int.{ℤ, pos, ◌==ℤ◌}
use os.ReqQ.{failure}
use os.ReqQ.Links.{Entry}
use os.ReqQ.Spec.{push, pop_rest, remove_at, at, fd_of}

pub record Fifo : Type 0 where
  pub limit : ℤ
  pub items : List Entry

abbrev pub size : Fifo → ℕ
size f = length f.items

unfoldable pub insert : Entry → Fifo → Fifo
insert e f = record f { items = push f.limit e f.items }

unfoldable pub remove_first : Fifo → ℤ × Fifo
remove_first f = (fd_of (get_elem? f.items 0), record f { items = pop_rest f.items })

unfoldable pub remove : ℤ → Fifo → ℤ × Fifo
remove i f = (fd_of (at i f.items), record f { items = remove_at i f.items })

-- The index of the first entry with the descriptor, counted from `i`, or -1.
abbrev pub find_from : ℕ → ℤ → List Entry → ℤ
find_from i fd [] = failure
find_from i fd (e ∷ es) = if fd ==ℤ e.fd then pos i else find_from (i + 1) fd es

unfoldable pub find : ℤ → Fifo → ℤ
find fd f = find_from 0 fd f.items
