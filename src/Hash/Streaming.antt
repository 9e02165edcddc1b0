-- ===== src/Hash/Streaming.antt =====
-- The reads of a file, beside `sha256_file`.
use pantheon_tools_catalog.Prelude.{
  ℕ, ◌≡◌, refl, sym, ◌∙◌, ap, Option, none, some, List, [], ◌∷◌, ◌++◌, and_then,
}
use pantheon_tools_catalog.Fs.{Read, bytes, io_error, DirEntry}
use pantheon_tools_catalog.Text.{Text}
use pantheon_tools_catalog.Hash.{Hasher, IsStreaming, feed, sha256_file, hex_lower}

-- All that the reads up to the end gave, if none of them failed.
abbrev pub all_bytes : List Read → Option (List ℕ)
all_bytes [] = some []
all_bytes (io_error ∷ reads) = none
all_bytes (bytes [] ∷ reads) = some []
all_bytes (bytes (b ∷ bs) ∷ reads) = elim (all_bytes reads) [
  | none ↦ none
  | some rest ↦ some ((b ∷ bs) ++ rest)
]

module _ {h : Hasher} (streaming : IsStreaming h) where
  open h use {State, new, update, finalize}

  abbrev fed : State → Option (List ℕ) → Option State
  fed s none = none
  fed s (some all) = some (update s all)

  feed-all_bytes : (s : State) (reads : List Read) → feed h s reads ≡ fed s (all_bytes reads)
  unfolding feed
  feed-all_bytes s [] = ap some (sym (streaming.update_nil s))
  feed-all_bytes s (io_error ∷ reads) = refl
  feed-all_bytes s (bytes [] ∷ reads) = ap some (sym (streaming.update_nil s))
  feed-all_bytes s (bytes (b ∷ bs) ∷ reads) =
      feed-all_bytes (update s (b ∷ bs)) reads ∙ joined (all_bytes reads)
    where
      joined :
          (o : Option (List ℕ))
          → fed (update s (b ∷ bs)) o
            ≡ fed s (elim o [ none ↦ none | some rest ↦ some ((b ∷ bs) ++ rest) ])
      joined none = refl
      joined (some rest) = ap some (streaming.update_append s (b ∷ bs) rest)

  -- The digest of all bytes of a file, given to the hash in one piece.
  abbrev pub digest_of_all : Option (List ℕ) → Option Text
  digest_of_all none = none
  digest_of_all (some all) = some (hex_lower (finalize (update new all)))

  -- Where feeding a hash two pieces is feeding it both as one, the digest of a file is the hash of
  -- its bytes in one piece, however the reads cut it, and there is none where a read fails.
  pub sha256_file-all_bytes :
      (e : DirEntry) {reads : List Read}
      → e.open_reads ≡ some reads
      → sha256_file h e ≡ digest_of_all (all_bytes reads)
  unfolding sha256_file
  sha256_file-all_bytes e {reads} o = rw (o, feed-all_bytes) (finished (all_bytes reads))
    where
      finished :
          (all : Option (List ℕ))
          → and_then (fed new all) (λ s. some (hex_lower (finalize s))) ≡ digest_of_all all
      finished none = refl
      finished (some all) = refl
