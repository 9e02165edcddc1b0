-- ===== src/Vuln/Version.antt =====
-- tools/vuln-match/src/main.rs, `ver_cmp`.
pub mod Order
use pantheon_tools_catalog.Prelude.{
  ℕ, zero, suc, ◌^◌, max, Bool, ◌||◌, List, [], ◌∷◌, length, get_elem?, map, unwrap_or, Ordering,
  compare, ◌==◌,
}
use pantheon_tools_catalog.Text.{Text, split, take_while, is_digit, parse_uint}

-- `c == '.' || c == '-' || c == '+' || c == '~'`
unfoldable pub is_separator : ℕ → Bool
is_separator c = c == b'.' || c == b'-' || c == b'+' || c == b'~'

-- The number of a component: its leading digits, and 0 where there are none or too many for a `u64`.
unfoldable pub component : Text → ℕ
component p = unwrap_or (parse_uint (2 ^ 64) (take_while is_digit p)) 0

unfoldable pub components : Text → List ℕ
unfolding is_separator component
components s = map component (split is_separator s)

-- `v.get(i).copied().unwrap_or(0)`
unfoldable pub at : List ℕ → ℕ → ℕ
at v i = unwrap_or (get_elem? v i) 0

-- the loop over `i..n`, with the number of rounds left
unfoldable pub cmp_from : ℕ → ℕ → List ℕ → List ℕ → Ordering
unfolding at
cmp_from zero i va vb = Ordering.eq
cmp_from (suc left) i va vb = elim (compare (at va i) (at vb i)) [
  | Ordering.eq ↦ cmp_from left (suc i) va vb
  | Ordering.lt ↦ Ordering.lt
  | Ordering.gt ↦ Ordering.gt
]

unfoldable pub ver_cmp : Text → Text → Ordering
unfolding components cmp_from split take_while is_digit parse_uint
ver_cmp a b =
    let va = components a in let vb = components b in cmp_from (max (length va) (length vb)) 0 va vb
