-- ===== src/Net/Banner/Sanitized.antt =====
-- What a banner can hold when it is shown.
use pantheon_tools_catalog.Prelude.{
  ℕ, ◌*◌, ◌/◌, ◌%◌, ◌≤◌, ◌<◌, ◌≡◌, refl, true, List, [], ◌∷◌, length, length-append, length-take,
  take, All, All-append, All-take, arith, Bool-cases, inl, inr,
}
use pantheon_tools_catalog.Text.{hex_digit}
use pantheon_tools_catalog.Net.Banner.{is_plain, shown_byte, sanitize_bytes, sanitize}

-- Printable, or a tab, a line feed or a carriage return.
abbrev pub IsPlain : ℕ → Type 0
IsPlain c = is_plain c ≡ true

hex_digit-IsPlain : (n : ℕ) → n < 16 → IsPlain (hex_digit n)
unfolding is_plain hex_digit
hex_digit-IsPlain n h = ground arith

escape-IsPlain : IsPlain b'\\' × IsPlain b'x'
unfolding is_plain
escape-IsPlain = (refl, refl)

shown_byte-IsPlain : (b : ℕ) → b < 256 → All IsPlain (shown_byte b)
unfolding shown_byte
shown_byte-IsPlain b h = elim (Bool-cases (is_plain b)) [
  | inl plain ↦ rw (plain, shown_byte) (plain, tt)
  | inr odd ↦
      rw (odd, shown_byte)
        (
          escape-IsPlain.0,
          (
            escape-IsPlain.1,
            (
              hex_digit-IsPlain (b / 16) (omega arith),
              (hex_digit-IsPlain (b % 16) (omega arith), tt),
            ),
          ),
        )
]

length-shown_byte : (b : ℕ) → length (shown_byte b) ≤ 4
unfolding shown_byte
length-shown_byte b = ground arith

sanitize_bytes-IsPlain : (bs : List ℕ) → All (λ b. b < 256) bs → All IsPlain (sanitize_bytes bs)
unfolding sanitize_bytes
sanitize_bytes-IsPlain [] h = tt
sanitize_bytes-IsPlain (b ∷ bs) (hb, h) =
    All-append IsPlain (shown_byte b) (sanitize_bytes bs) (shown_byte-IsPlain b hb)
      (sanitize_bytes-IsPlain bs h)

length-sanitize_bytes : (bs : List ℕ) → length (sanitize_bytes bs) ≤ 4 * length bs
unfolding sanitize_bytes
length-sanitize_bytes [] = omega arith
length-sanitize_bytes (b ∷ bs) = omega (
  arith,
  length-append (shown_byte b) (sanitize_bytes bs),
  length-shown_byte b,
  length-sanitize_bytes bs,
)

-- Of any bytes below 256, what `sanitize` shows holds printable characters, tabs, line feeds and carriage
-- returns only, and at most four for each of the first `cap` bytes.
pub sanitize-IsPlain :
    (bytes : List ℕ) (cap : ℕ)
    → All (λ b. b < 256) bytes
    → All IsPlain (sanitize bytes cap) × (length (sanitize bytes cap) ≤ 4 * cap)
unfolding sanitize
sanitize-IsPlain bytes cap h = (
  sanitize_bytes-IsPlain (take cap bytes) (All-take (λ b. b < 256) cap bytes h),
  omega (arith, length-sanitize_bytes (take cap bytes), length-take cap bytes),
)
