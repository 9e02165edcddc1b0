-- ===== src/Triage/Ipv4.antt =====
-- `is_public_ipv4` of tools/log-triage/src/main.rs.
pub mod Blocks
use pantheon_tools_catalog.Prelude.{
  ℕ, ◌+◌, ◌^◌, Bool, true, false, not, ◌&&◌, ◌||◌, Option, none, some, List, [], ◌∷◌, ◌++◌, length,
  leb, ◌==◌, if◌then◌else◌, and_then,
}
use pantheon_tools_catalog.Text.{Text, split, parse_uint}

-- `part.parse::<u16>()` with the guard `v <= 255`
unfoldable pub octet : Text → Option ℕ
unfolding parse_uint
octet part = and_then (parse_uint (2 ^ 16) part) (λ v. if leb v 255 then some v else none)

-- The loop over the parts, with the filled part of the array; `none` is an early `return false`.
unfoldable pub octets : List ℕ → List Text → Option (List ℕ)
unfolding octet
octets o [] = some o
octets o (part ∷ rest) =
    if leb 4 (length o) then none else and_then (octet part) (λ v. octets (o ++ v ∷ []) rest)

-- the tests after the loop
unfoldable pub is_routable : List ℕ → Bool
is_routable (a ∷ b ∷ c ∷ d ∷ []) = not (
    a == 10
    || a == 127
    || a == 0
    || (a == 172 && (leb 16 b && leb b 31))
    || (a == 192 && b == 168)
    || (a == 169 && b == 254))
is_routable _ = false

unfoldable pub is_public_ipv4 : Text → Bool
unfolding octets is_routable split
is_public_ipv4 s = elim (octets [] (split (λ c. c == b'.') s)) [
  | none ↦ false
  | some o ↦ is_routable o
]
