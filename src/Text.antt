-- ===== src/Text.antt =====
-- Rust's `str` as the list of its `char`s, and the methods of the standard library that the tools
-- call on it. Equality and the lexicographic order are in the child modules.
pub mod Order
pub mod Find
pub mod Decimal
pub mod Utf8
use Prim.Native.Char.{code}
use Prim.Native.String.{String}
use pantheon_tools_catalog.Prelude.{
  ℕ, suc, ◌+◌, ◌-◌, ◌*◌, ◌≡◌, refl, ◌↔◌, Bool, true, false, ◌&&◌, ◌||◌, not, Option, none, some,
  List, [], ◌∷◌, ◌++◌, map, arith, ltb, leb, ◌==◌, if◌then◌else◌,
}

abbrev pub Text : Type 0
Text = List ℕ

abbrev pub codes : String → Text
codes String.[] = []
codes (String.◌∷◌ c s) = code c ∷ codes s

-- `a == b`
unfoldable pub text_eq : Text → Text → Bool
text_eq [] [] = true
text_eq [] (y ∷ ys) = false
text_eq (x ∷ xs) [] = false
text_eq (x ∷ xs) (y ∷ ys) = x == y && text_eq xs ys

-- `char::to_ascii_lowercase`
unfoldable pub lower_char : ℕ → ℕ
lower_char c = if leb b'A' c && leb c b'Z' then c + 32 else c

-- `str::to_ascii_lowercase`
unfoldable pub to_lower : Text → Text
unfolding lower_char
to_lower = map lower_char

-- `str::eq_ignore_ascii_case`
unfoldable pub eq_ignore_case : Text → Text → Bool
unfolding to_lower text_eq
eq_ignore_case a b = text_eq (to_lower a) (to_lower b)

-- `str::starts_with`
unfoldable pub starts_with : Text → Text → Bool
starts_with p [] = elim p [ [] ↦ true | _ ∷ _ ↦ false ]
starts_with [] (x ∷ xs) = true
starts_with (p ∷ ps) (x ∷ xs) = p == x && starts_with ps xs

unfoldable pub is_digit : ℕ → Bool
is_digit c = leb b'0' c && leb c b'9'

-- `char::is_whitespace`
unfoldable pub is_space : ℕ → Bool
is_space c =
    c == b' '
    || (leb 9 c && leb c 13)
    || c == 133
    || c == 160
    || c == 5760
    || (leb 8192 c && leb c 8202)
    || (leb 8232 c && leb c 8233)
    || c == 8239
    || c == 8287
    || c == 12288

unfoldable pub trim_start : Text → Text
unfolding is_space
trim_start [] = []
trim_start (c ∷ s) = if is_space c then trim_start s else c ∷ s

unfoldable pub trim_end : Text → Text
unfolding is_space
trim_end [] = []
trim_end (c ∷ s) =
    let rest = trim_end s in
    elim rest [ [] ↦ if is_space c then [] else c ∷ [] | x ∷ xs ↦ c ∷ x ∷ xs ]

unfoldable pub trim : Text → Text
unfolding trim_start trim_end
trim s = trim_end (trim_start s)

-- The characters up to the first separator, and the pieces after it.
abbrev pub push_front : ℕ → List Text → List Text
push_front c [] = (c ∷ []) ∷ []
push_front c (p ∷ ps) = (c ∷ p) ∷ ps

-- `str::split` by a test on characters: one piece more than there are separators.
unfoldable pub split : (ℕ → Bool) → Text → List Text
split sep [] = [] ∷ []
split sep (c ∷ s) = let rest = split sep s in if sep c then [] ∷ rest else push_front c rest

-- `str::take_while`
unfoldable pub take_while : (ℕ → Bool) → Text → Text
take_while p [] = []
take_while p (c ∷ s) = if p c then c ∷ take_while p s else []

-- The value of a run of digits, most significant first.
unfoldable pub digits_value : ℕ → Text → Option ℕ
unfolding is_digit
digits_value n [] = some n
digits_value n (c ∷ s) = if is_digit c then digits_value (n * 10 + (c - b'0')) s else none

-- `parse::<uN>()` of an unsigned type that holds the numbers below `bound`: an optional `+`, then
-- one digit or more.
unfoldable pub parse_uint : ℕ → Text → Option ℕ
unfolding digits_value
parse_uint bound [] = none
parse_uint bound (c ∷ s) =
    let body = if c == b'+' then s else c ∷ s in
    elim body [
      | [] ↦ none
      | d ∷ ds ↦ elim (digits_value 0 (d ∷ ds)) [
        | none ↦ none
        | some n ↦ if ltb n bound then some n else none
      ]
    ]

-- `format!("{b:02x}")`, one character
unfoldable pub hex_digit : ℕ → ℕ
hex_digit n = if ltb n 10 then b'0' + n else b'a' + (n - 10)

-- A line without the carriage return that stood before its line feed.
unfoldable pub strip_cr : Text → Text
strip_cr [] = []
strip_cr (c ∷ []) = if c == 13 then [] else c ∷ []
strip_cr (c ∷ d ∷ s) = c ∷ strip_cr (d ∷ s)

-- The pieces between line feeds, as `str::lines` gives them: an empty last piece is no line.
unfoldable pub line_pieces : List Text → List Text
unfolding strip_cr
line_pieces [] = []
line_pieces ([] ∷ []) = []
line_pieces ((c ∷ p) ∷ []) = (c ∷ p) ∷ []
line_pieces (p ∷ q ∷ r) = strip_cr p ∷ line_pieces (q ∷ r)

-- `str::lines`
unfoldable pub lines : Text → List Text
unfolding split line_pieces
lines s = line_pieces (split (λ c. c == 10) s)
