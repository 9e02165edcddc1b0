-- ===== src/Net/Banner.antt =====
-- tools/banner-grab/src/main.rs. What the network answers is a parameter.
pub mod Sanitized
use pantheon_tools_catalog.Prelude.{
  ℕ, ◌+◌, ◌*◌, ◌/◌, ◌%◌, Bool, true, false, not, ◌&&◌, ◌||◌, Option, none, some, List, [], ◌∷◌,
  ◌++◌, map, length, take, filter_map, is_empty, leb, ltb, ◌==◌, min, max, if◌then◌else◌, unwrap_or,
  ok_or, ensure, Result, ok, err, ◌>>=◌, ◌>>◌,
}
use pantheon_tools_catalog.Text.{Text, codes, hex_digit}
use pantheon_tools_catalog.Serde.{Serde, str_arg, u64_arg, array_arg, as_usize}

pub data Error : Type 0 where
  args_not_json targets_missing targets_empty too_many : Error

-- `b'\t' | b'\n' | b'\r'`, and `0x20..=0x7e`
unfoldable pub is_plain : ℕ → Bool
is_plain b = b == 9 || b == 10 || b == 13 || (leb 32 b && leb b 126)

-- one byte: itself, or `\xNN`
unfoldable pub shown_byte : ℕ → Text
unfolding is_plain hex_digit
shown_byte b =
    if is_plain b then b ∷ [] else b'\\' ∷ b'x' ∷ hex_digit (b / 16) ∷ hex_digit (b % 16) ∷ []

unfoldable pub sanitize_bytes : List ℕ → Text
sanitize_bytes [] = []
sanitize_bytes (b ∷ bs) = shown_byte b ++ sanitize_bytes bs

unfoldable pub sanitize : List ℕ → ℕ → Text
sanitize bytes cap = sanitize_bytes (take cap bytes)

-- `to_socket_addrs`, `connect_timeout`, `write_all` and `read`, with the text of an error.
pub record Network : Type 1 where
  pub Addr : Type 0
  pub resolve : Text → Option Addr
  pub connect : Addr → ℕ → Result Text (Unit {0})
  pub write_all : Addr → Text → Result Text (Unit {0})
  -- at most as many bytes as the buffer has
  pub read : Addr → Option Text → ℕ → Result Text (List ℕ)

pub data Outcome : Type 0 where
  resolve_failed : Outcome
  connect_failed : Text → Outcome
  write_failed read_failed : Text → Outcome
  -- the number of bytes, and the banner
  grabbed : ℕ → Text → Outcome

module _ (net : Network) where
  unfoldable pub read_banner : net.Addr → Option Text → ℕ → Outcome
  unfolding sanitize sanitize_bytes shown_byte
  read_banner addr send read_bytes = elim (net.read addr send read_bytes) [
    | err e ↦ read_failed e
    | ok buf ↦ let got = take read_bytes buf in grabbed (length got) (sanitize got read_bytes)
  ]

  unfoldable pub grab : Text → Option Text → ℕ → ℕ → Outcome
  grab target send read_bytes timeout = elim (net.resolve target) [
    | none ↦ resolve_failed
    | some addr ↦ elim (net.connect addr timeout) [
      | err e ↦ connect_failed e
      | ok _ ↦ elim send [
        | none ↦ read_banner addr none read_bytes
        | some probe ↦ elim (net.write_all addr probe) [
          | err e ↦ write_failed e
          | ok _ ↦ read_banner addr (some probe) read_bytes
        ]
      ]
    ]
  ]

-- `.clamp(1, 4096)`
abbrev pub clamp : ℕ → ℕ
clamp n = min (max n 1) 4096

unfoldable pub run : Serde → Network → Option Text → Result Error (List (Text × Outcome))
unfolding grab read_banner
run j net raw = do
  a ← ok_or (j.from_str (unwrap_or raw (codes "{}"))) args_not_json
  arr ← ok_or (array_arg j a "targets") targets_missing
  let targets = filter_map j.as_str arr
  ensure (not (is_empty targets)) targets_empty
  ensure (not (ltb 50 (length targets))) too_many
  let send = str_arg j a "send"
  let read_bytes = clamp (as_usize (unwrap_or (u64_arg j a "read_bytes") 512))
  let timeout = unwrap_or (u64_arg j a "timeout_ms") 3000
  ok (map (λ t. (t, grab net t send read_bytes timeout)) targets)
