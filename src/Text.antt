-- ===== src/Text.antt =====
-- The string functions that OS_HW3_234123/request.c and OS_HW1_234123/Commands.cpp call, on lists of bytes.
use Prim.Native.String.{String}
use Prim.Native.Char.{code}
use os.Prelude.{
  ℕ, ◌+◌, Bool, true, false, ◌&&◌, ◌||◌, Option, none, some, List, [], ◌∷◌, ◌++◌, map, ◌==◌, leb,
  if◌then◌else◌,
}

-- The bytes of a text.
abbrev pub codes : String → List ℕ
codes String.[] = []
codes (String.◌∷◌ c s) = code c ∷ codes s

abbrev pub str_eq : List ℕ → List ℕ → Bool
str_eq [] [] = true
str_eq [] (y ∷ ys) = false
str_eq (x ∷ xs) [] = false
str_eq (x ∷ xs) (y ∷ ys) = (x == y) && str_eq xs ys

-- Is the first text a prefix of the second?
abbrev pub prefixes : List ℕ → List ℕ → Bool
prefixes [] ys = true
prefixes (x ∷ xs) [] = false
prefixes (x ∷ xs) (y ∷ ys) = (x == y) && prefixes xs ys

-- `strstr(text, needle) != NULL`
abbrev pub contains : List ℕ → List ℕ → Bool
contains needle [] = prefixes needle []
contains needle (x ∷ xs) = prefixes needle (x ∷ xs) || contains needle xs

-- The text in front of the first `c`, and the text behind it if there is one (`index`).
abbrev pub before : ℕ → List ℕ → List ℕ
before c [] = []
before c (x ∷ xs) = if x == c then [] else x ∷ before c xs

abbrev pub after? : ℕ → List ℕ → Option (List ℕ)
after? c [] = none
after? c (x ∷ xs) = if x == c then some xs else after? c xs

abbrev pub last? : List ℕ → Option ℕ
last? [] = none
last? (x ∷ []) = some x
last? (x ∷ y ∷ ys) = last? (y ∷ ys)

abbrev pub is_space : ℕ → Bool
is_space c = (c == 32) || (leb 9 c && leb c 13)

-- The words that `%s` scans one after the other.
abbrev pub add_word : List ℕ → List (List ℕ) → List (List ℕ)
add_word [] ws = ws
add_word (c ∷ cs) ws = (c ∷ cs) ∷ ws

abbrev pub words_from : (word : List ℕ) → List ℕ → List (List ℕ)
words_from word [] = add_word word []
words_from word (c ∷ cs) =
    let next = words_from [] cs in
    let more = words_from (word ++ c ∷ []) cs in if is_space c then add_word word next else more

abbrev pub words : List ℕ → List (List ℕ)
words = words_from []

abbrev pub to_lower : ℕ → ℕ
to_lower c = if leb 65 c && leb c 90 then c + 32 else c

abbrev pub lower : List ℕ → List ℕ
lower = map to_lower
