-- ===== src/Inspect/ReadFile/Cut.antt =====
-- What fs-read returns of a file.
use pantheon_tools_catalog.Prelude.{
  ℕ, zero, suc, ◌+◌, ◌-◌, ◌<◌, ◌≡◌, refl, sym, ap, true, some, List, [], ◌∷◌, ◌++◌, length, take,
  take_all, ltb, if◌then◌else◌, min, All, All-take, arith, ok, Option-cases, inl, inr, length-take,
  cut-one_more,
}
use pantheon_tools_catalog.Text.{codes}
use pantheon_tools_catalog.Fs.{DirEntry, Metadata, Read, bytes, io_error, is_file}
use pantheon_tools_catalog.Hash.{Hasher, hex_lower}
use pantheon_tools_catalog.Hash.Streaming.{all_bytes}
use pantheon_tools_catalog.Inspect.Base64.{b64_encode}
use pantheon_tools_catalog.Inspect.Base64.RoundTrip.{b64_decode, b64_decode-encode}
use pantheon_tools_catalog.Inspect.ReadFile.{Output, read_limited, content_of, read_file}

take-append {ℓ} :
    {A : Type ℓ} (n : ℕ) (xs ys : List A) → take n (xs ++ ys) ≡ take n xs ++ take (n - length xs) ys
take-append zero xs ys = let e : 0 - length xs ≡ 0 = omega arith in rw e refl
take-append (suc n) [] ys = let e : suc n - 0 ≡ suc n = omega arith in rw e refl
take-append (suc n) (x ∷ xs) ys =
    let e : suc n - suc (length xs) ≡ n - length xs = omega arith in
    rw e (ap (λ l. x ∷ l) (take-append n xs ys))

-- The reads up to a limit give the first bytes of the file.
pub read_limited-all_bytes :
    (n : ℕ) (reads : List Read) {all : List ℕ}
    → all_bytes reads ≡ some all
    → read_limited n reads ≡ some (take n all)
unfolding read_limited
read_limited-all_bytes n [] {all} e =
    let nil : [] ≡ all = ground arith in rw (← nil) (ap some (sym (take_all n [] (omega arith))))
read_limited-all_bytes zero (r ∷ reads) e = refl
read_limited-all_bytes (suc n) (io_error ∷ reads) e = ground arith
read_limited-all_bytes (suc n) (bytes [] ∷ reads) {all} e =
    let nil : [] ≡ all = ground arith in rw (← nil) refl
read_limited-all_bytes (suc n) (bytes (b ∷ bs) ∷ reads) {all} e =
    elim (Option-cases (all_bytes reads)) [
      | inl gone ↦ absurd (ground (arith, rw gone at e))
      | inr (rest, found) ↦
          let whole : (b ∷ bs) ++ rest ≡ all = ground (arith, rw found at e) in
          rw (← whole, read_limited-all_bytes (n - length bs) reads found)
            (ap some (ap (λ l. b ∷ l) (sym (take-append n bs rest))))
    ]

module _ (h : Hasher) (file : DirEntry) (n : ℕ) where
  abbrev output : Metadata → List ℕ → Output
  output meta all =
      let kept =
        if ltb n (length (take (n + 1) all)) then take n (take (n + 1) all) else take (n + 1) all in
      record {
        size_bytes = meta.len;
        read_bytes = length kept;
        sha256 = hex_lower (h.finalize (h.update h.new kept));
        truncated = ltb n (length (take (n + 1) all));
        content = b64_encode kept;
      }

  -- What the answer says of a file with the bytes `all`.
  abbrev pub Shows : List ℕ → Output → Type 0
  Shows all out =
      (b64_decode out.content ≡ some (take n all))
      × (out.sha256 ≡ hex_lower (h.finalize (h.update h.new (take n all))))
      × (out.truncated ≡ ltb n (length all))
      × (out.read_bytes ≡ min n (length all))

  -- Of a regular file of bytes below 256 that is read without error, fs-read in base64 answers
  -- with a text that decodes to the first `max_bytes` bytes, the digest of these, their number,
  -- and `truncated` exactly if the file has more.
  pub read_file-base64 :
      {meta : Metadata} {reads : List Read} {all : List ℕ}
      → file.stat ≡ some meta
      → is_file meta ≡ true
      → file.open_reads ≡ some reads
      → all_bytes reads ≡ some all
      → All (λ b. b < 256) all
      → (out : Output) × (read_file h file n (codes "base64") ≡ ok out) × Shows all out
  unfolding read_file content_of
  read_file-base64 {meta} {reads} {all} stat regular opened bytes_of below =
      let cut = cut-one_more n all in
      (
        output meta all,
        rw (stat, regular, opened, read_limited-all_bytes (n + 1) reads bytes_of, content_of) refl,
        (
          rw cut (b64_decode-encode (take n all) (All-take (λ b. b < 256) n all below)),
          rw cut refl,
          ground (arith, length-take (n + 1) all),
          rw cut (length-take n all),
        ),
      )
