-- ===== src/Sockets/Address.antt =====
-- The classes of addresses of tools/socket-inventory/src/main.rs. The parser of `std::net` is a
-- parameter, and what it gives is the address by its octets or segments.
use pantheon_tools_catalog.Prelude.{
  ℕ, ◌*◌, ◌/◌, ◌%◌, Bool, false, not, ◌&&◌, ◌||◌, Option, none, some, [], ◌∷◌, leb, ◌==◌,
  if◌then◌else◌,
}
use pantheon_tools_catalog.Text.{Text, codes, split, text_eq}

pub data IpAddr : Type 0 where
  v4 : ℕ → ℕ → ℕ → ℕ → IpAddr
  v6 : ℕ → ℕ → ℕ → ℕ → ℕ → ℕ → ℕ → ℕ → IpAddr

-- `str::parse::<IpAddr>().ok()`
abbrev pub ParseIp : Type 0
ParseIp = Text → Option IpAddr

-- `addr.split('%').next()`, which is always there
unfoldable pub without_zone : Text → Text
unfolding split
without_zone addr = elim (split (λ c. c == b'%') addr) [ [] ↦ addr | p ∷ _ ↦ p ]

abbrev pub is_loopback_v4 : ℕ → Bool
is_loopback_v4 a = a == 127

-- `to_ipv4_mapped`: ::ffff:a.b.c.d
abbrev pub is_mapped : ℕ → ℕ → ℕ → ℕ → ℕ → ℕ → Bool
is_mapped s t u v w x = s == 0 && t == 0 && u == 0 && v == 0 && w == 0 && x == 65535

abbrev pub all_zero : ℕ → ℕ → ℕ → ℕ → ℕ → ℕ → ℕ → Bool
all_zero s t u v w x y = s == 0 && t == 0 && u == 0 && v == 0 && w == 0 && x == 0 && y == 0

unfoldable pub loopback_addr : IpAddr → Bool
loopback_addr (v4 a b c d) = is_loopback_v4 a
loopback_addr (v6 s t u v w x y z) =
    (all_zero s t u v w x y && z == 1) || (is_mapped s t u v w x && is_loopback_v4 (y / 256))

unfoldable pub is_loopback : ParseIp → Text → Bool
unfolding loopback_addr without_zone
is_loopback parse addr = elim (parse (without_zone addr)) [
  | none ↦ false
  | some ip ↦ loopback_addr ip
]

unfoldable pub is_wildcard : Text → Bool
unfolding text_eq
is_wildcard addr =
    text_eq addr (codes "0.0.0.0")
    || text_eq addr (codes "::")
    || text_eq addr (codes "*")
    || text_eq addr []

-- The tests on the octets; the documentation blocks are 192.0.2.0/24, 198.51.100.0/24 and
-- 203.0.113.0/24.
unfoldable pub public_v4 : ℕ → ℕ → ℕ → ℕ → Bool
public_v4 a b c d = not (
    (a == 10 || (a == 172 && (leb 16 b && leb b 31)) || (a == 192 && b == 168))
    || is_loopback_v4 a
    || (a == 169 && b == 254)
    || (leb 224 a && leb a 239)
    || (a == 255 && b == 255 && c == 255 && d == 255)
    || (a == 0 && b == 0 && c == 0 && d == 0)
    || ((a == 192 && b == 0 && c == 2)
        || (a == 198 && b == 51 && c == 100)
        || (a == 203 && b == 0 && c == 113))
    || (a == 100 && (b / 64 % 4) * 64 == 64))

-- The text of an IPv4 address, which the source parses again, is that address. The masks keep the
-- upper 7 and 10 bits of a segment.
unfoldable pub public_addr : IpAddr → Bool
unfolding public_v4
public_addr (v4 a b c d) = public_v4 a b c d
public_addr (v6 s t u v w x y z) =
    if is_mapped s t u v w x
    then public_v4 (y / 256) (y % 256) (z / 256) (z % 256)
    else not (
        (all_zero s t u v w x y && z == 1)
        || (all_zero s t u v w x y && z == 0)
        || (s / 256 == 255)
        || (s / 512) * 512 == 64512
        || (s / 64) * 64 == 65152)

unfoldable pub is_public : ParseIp → Text → Bool
unfolding public_addr without_zone
is_public parse addr = elim (parse (without_zone addr)) [ none ↦ false | some ip ↦ public_addr ip ]
