-- ===== src/Remediate/VersionGe.antt =====
-- tools/package-remediate/src/main.rs, `ver_ge` (compliance-scan holds the same text).
pub mod Total
use pantheon_tools_catalog.Prelude.{
  ℕ, zero, suc, ◌+◌, ◌^◌, max, Bool, true, false, not, ◌&&◌, ◌||◌, Option, none, some, List, [],
  ◌∷◌, length, get_elem?, retain, is_empty, unwrap_or, Ordering, compare, leb, if◌then◌else◌,
}
use pantheon_tools_catalog.Text.{Text, codes, split, parse_uint}
use pantheon_tools_catalog.Text.Order.{text_cmp}

unfoldable pub is_alphanumeric : ℕ → Bool
is_alphanumeric c =
    (leb b'0' c && leb c b'9') || (leb b'A' c && leb c b'Z') || (leb b'a' c && leb c b'z')

-- `seg`
unfoldable pub segments : Text → List Text
unfolding is_alphanumeric
segments s = retain (λ x. not (is_empty x)) (split (λ c. not (is_alphanumeric c)) s)

-- Two numbers below 2^64 are compared as numbers, any other two segments as texts.
unfoldable pub cmp_segment : Text → Text → Ordering
cmp_segment a b = elim (parse_uint (2 ^ 64) a) [
  | none ↦ text_cmp a b
  | some x ↦ elim (parse_uint (2 ^ 64) b) [ none ↦ text_cmp a b | some y ↦ compare x y ]
]

-- `h.get(i).map(String::as_str).unwrap_or("0")`
unfoldable pub segment_at : List Text → ℕ → Text
segment_at v i = unwrap_or (get_elem? v i) (codes "0")

-- the loop, with the number of rounds left
unfoldable pub ge_from : ℕ → ℕ → List Text → List Text → Bool
ge_from zero i h w = true
ge_from (suc left) i h w = elim (cmp_segment (segment_at h i) (segment_at w i)) [
  | Ordering.eq ↦ ge_from left (suc i) h w
  | Ordering.gt ↦ true
  | Ordering.lt ↦ false
]

unfoldable pub ver_ge : Text → Text → Bool
unfolding segments ge_from segment_at cmp_segment split parse_uint text_cmp
ver_ge have want =
    let h = segments have in let w = segments want in ge_from (max (length w) (length h)) 0 h w
