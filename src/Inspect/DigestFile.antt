-- ===== src/Inspect/DigestFile.antt =====
-- tools/fs-hash/src/main.rs. The three digest algorithms are parameters.
use pantheon_tools_catalog.Prelude.{
  ℕ, ◌≡◌, refl, ap, ◌∙◌, true, not, ◌||◌, Option, none, some, List, [], ◌∷◌, map, filter_map,
  is_empty, length, arith, ◌==◌, if◌then◌else◌, unwrap_or, ok_or, ensure, Result, ok, err, ◌>>=◌,
  ◌>>◌, Option-cases, inl, inr,
}
use pantheon_tools_catalog.Text.{Text, codes, text_eq}
use pantheon_tools_catalog.Serde.{Serde, str_arg, array_arg}
use pantheon_tools_catalog.Fs.{DirEntry, Metadata, Read, bytes, io_error, World, is_file}
use pantheon_tools_catalog.Hash.Streaming.{all_bytes, digest_of_all, sha256_file-all_bytes}
use pantheon_tools_catalog.Hash.{IsStreaming, Hasher, feed, hex_lower, sha256_file}

pub data Error : Type 0 where
  args_not_json bad_algo paths_missing no_paths : Error

pub data FileError : Type 0 where
  stat_failed not_regular open_failed read_failed unknown_algo : FileError

pub record Algorithms : Type 1 where
  pub sha256 : Hasher
  pub sha1 : Hasher
  pub md5 : Hasher

-- The digest of an answer, if it is no error.
abbrev pub digest_of : Result FileError (Text × ℕ) → Option Text
digest_of (ok (d, _)) = some d
digest_of (err e) = none

module _ (algos : Algorithms) where
  open algos use {sha256, sha1, md5}

  -- the loop of the macro `stream!`
  unfoldable pub stream_from : (h : Hasher) → h.State → List Read → Result FileError h.State
  stream_from h state [] = ok state
  stream_from h state (io_error ∷ reads) = err read_failed
  stream_from h state (bytes buf ∷ reads) =
      let rest = stream_from h (h.update state buf) reads in
      if length buf == 0 then ok state else rest

  -- the macro `stream!`
  unfoldable pub stream : Hasher → List Read → Result FileError Text
  unfolding stream_from hex_lower
  stream h reads = do state ← stream_from h h.new reads; ok (hex_lower (h.finalize state))

  unfoldable pub digest_with : Text → List Read → Result FileError Text
  unfolding text_eq
  digest_with algo reads =
      if text_eq algo (codes "sha256")
      then stream sha256 reads
      else if text_eq algo (codes "sha1")
      then stream sha1 reads
      else if text_eq algo (codes "md5")
      then stream md5 reads
      else err unknown_algo

  unfoldable pub digest_file : DirEntry → Text → Result FileError (Text × ℕ)
  digest_file file algo = do
    meta ← ok_or file.stat stat_failed
    ensure (is_file meta) not_regular
    reads ← ok_or file.open_reads open_failed
    digest ← digest_with algo reads
    ok (digest, meta.len)

  pub record Output : Type 0 where
    pub algo : Text
    pub count : ℕ
    pub results : List (Text × Result FileError (Text × ℕ))

  -- `paths`, or the one `path`
  unfoldable pub read_paths : (j : Serde) → j.Value → Result Error (List Text)
  read_paths j a = elim (array_arg j a "paths") [
    | some arr ↦ ok (filter_map j.as_str arr)
    | none ↦ elim (str_arg j a "path") [ some p ↦ ok (p ∷ []) | none ↦ err paths_missing ]
  ]

  unfoldable pub run : Serde → World → Option Text → Result Error Output
  unfolding read_paths digest_file digest_with stream text_eq
  run j w raw = do
    a ← ok_or (j.from_str (unwrap_or raw (codes "{}"))) args_not_json
    let algo = unwrap_or (str_arg j a "algo") (codes "sha256")
    ensure
        (text_eq algo (codes "sha256") || text_eq algo (codes "sha1") || text_eq algo (codes "md5"))
        bad_algo
    paths ← read_paths j a
    ensure (not (is_empty paths)) no_paths
    let results = map (λ p. (p, digest_file (w.file_at p) algo)) paths
    ok (record { algo = algo; count = length results; results = results })

  -- The loop of fs-hash ends as the loop of the other tools does.
  stream_from-feed :
      (h : Hasher) (state : h.State) (reads : List Read)
      → stream_from h state reads ≡ ok_or (feed h state reads) read_failed
  unfolding stream_from feed
  stream_from-feed h state [] = refl
  stream_from-feed h state (io_error ∷ reads) = refl
  stream_from-feed h state (bytes [] ∷ reads) = refl
  stream_from-feed h state (bytes (b ∷ bs) ∷ reads) =
      ground (arith, stream_from-feed h (h.update state (b ∷ bs)) reads)

  digest_file-sha256_file :
      (file : DirEntry) {meta : Metadata}
      → file.stat ≡ some meta
      → is_file meta ≡ true
      → digest_of (digest_file file (codes "sha256")) ≡ sha256_file sha256 file
  unfolding digest_file digest_with stream sha256_file text_eq
  digest_file-sha256_file file {meta} stat regular = elim (Option-cases file.open_reads) [
    | inl shut ↦ rw (stat, regular, shut, digest_file, sha256_file) refl
    | inr (reads, opened) ↦ elim (Option-cases (feed sha256 sha256.new reads)) [
      | inl failed ↦
          let broken : stream_from sha256 sha256.new reads ≡ err read_failed =
            stream_from-feed sha256 sha256.new reads ∙ ap (λ o. ok_or o read_failed) failed in
          rw (stat, regular, opened, digest_file, digest_with, stream, broken, failed, sha256_file)
            refl
      | inr (state, fed) ↦
          let ended : stream_from sha256 sha256.new reads ≡ ok state =
            stream_from-feed sha256 sha256.new reads ∙ ap (λ o. ok_or o read_failed) fed in
          rw (stat, regular, opened, digest_file, digest_with, stream, ended, fed, sha256_file) refl
    ]
  ]

-- Where feeding sha256 two pieces is feeding it both as one: of a regular file that opens, fs-hash
-- with sha256 and `sha256_file` of fim-snapshot and fim-diff both give the digest of all bytes of the
-- file in one piece, however the reads cut them, and both give none where a read fails.
pub digest_file-all_bytes :
    (algos : Algorithms) (streaming : IsStreaming algos.sha256) (file : DirEntry) {meta : Metadata}
    {reads : List Read}
    → file.stat ≡ some meta
    → is_file meta ≡ true
    → file.open_reads ≡ some reads
    → (digest_of (digest_file algos file (codes "sha256"))
        ≡ digest_of_all streaming (all_bytes reads))
      × (sha256_file algos.sha256 file ≡ digest_of_all streaming (all_bytes reads))
digest_file-all_bytes algos streaming file stat regular opened =
    let whole = sha256_file-all_bytes streaming file opened in
    (digest_file-sha256_file algos file stat regular ∙ whole, whole)
