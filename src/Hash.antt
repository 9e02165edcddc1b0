-- ===== src/Hash.antt =====
-- The digests of the `sha2`, `sha1` and `md5` crates, which are not part of the repository: a hash
-- state, as a parameter; and how the tools feed it.
pub mod Streaming
use pantheon_tools_catalog.Prelude.{
  ℕ, ◌/◌, ◌%◌, ◌≡◌, Bool, Option, none, some, List, [], ◌∷◌, ◌++◌, if◌then◌else◌, and_then,
}
use pantheon_tools_catalog.Text.{Text, hex_digit}
use pantheon_tools_catalog.Fs.{Read, bytes, io_error, DirEntry}

pub record Hasher : Type 1 where
  pub State : Type 0
  pub new : State
  pub update : State → List ℕ → State
  pub finalize : State → List ℕ

-- What the crates document: feeding two pieces is feeding them as one.
pub record IsStreaming (h : Hasher) : Type 0 where
  pub update_nil : (s : h.State) → h.update s [] ≡ s
  pub update_append : (s : h.State) (a b : List ℕ) → h.update (h.update s a) b ≡ h.update s (a ++ b)

-- `hex_lower`: two digits for a byte
unfoldable pub hex_lower : List ℕ → Text
unfolding hex_digit
hex_lower [] = []
hex_lower (b ∷ bs) = hex_digit (b / 16) ∷ hex_digit (b % 16) ∷ hex_lower bs

module _ (h : Hasher) where
  open h use {State, new, update, finalize}

  -- The read loop: it ends at the first read of 0 bytes, and an error ends it without a digest.
  unfoldable pub feed : State → List Read → Option State
  feed s [] = some s
  feed s (io_error ∷ reads) = none
  feed s (bytes [] ∷ reads) = some s
  feed s (bytes (b ∷ bs) ∷ reads) = feed (update s (b ∷ bs)) reads

  unfoldable pub sha256_file : DirEntry → Option Text
  unfolding feed hex_lower
  sha256_file e =
      and_then e.open_reads λ reads. and_then (feed new reads) λ s. some (hex_lower (finalize s))
