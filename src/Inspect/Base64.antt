-- ===== src/Inspect/Base64.antt =====
-- tools/fs-read/src/main.rs, `b64_encode`.
pub mod RoundTrip
use pantheon_tools_catalog.Prelude.{
  ℕ, ◌+◌, ◌*◌, ◌/◌, ◌%◌, Option, List, [], ◌∷◌, get_elem?, unwrap_or,
}
use pantheon_tools_catalog.Text.{Text, codes}

abbrev pub alphabet : Text
alphabet = codes "ABCDEFGHIJKLMNOPQRSTUVWXYZabcdefghijklmnopqrstuvwxyz0123456789+/"

-- `A[i]`, for an `i` below 64
unfoldable pub letter : ℕ → ℕ
letter i = unwrap_or (get_elem? alphabet i) 0

-- `(b0 << 16) | (b1 << 8) | b2`, of bytes
abbrev pub word : ℕ → ℕ → ℕ → ℕ
word b0 b1 b2 = b0 * 65536 + b1 * 256 + b2

-- the loop over `input.chunks(3)`; `(n >> 18) & 63` is `n / 262144 % 64`, and so on
unfoldable pub b64_encode : List ℕ → Text
b64_encode [] = []
b64_encode (b0 ∷ []) =
    let n = word b0 0 0 in letter (n / 262144 % 64) ∷ letter (n / 4096 % 64) ∷ b'=' ∷ b'=' ∷ []
b64_encode (b0 ∷ b1 ∷ []) =
    let n = word b0 b1 0 in
    letter (n / 262144 % 64) ∷ letter (n / 4096 % 64) ∷ letter (n / 64 % 64) ∷ b'=' ∷ []
b64_encode (b0 ∷ b1 ∷ b2 ∷ chunks) =
    let n = word b0 b1 b2 in
    letter (n / 262144 % 64)
    ∷ letter (n / 4096 % 64)
    ∷ letter (n / 64 % 64)
    ∷ letter (n % 64)
    ∷ b64_encode chunks
