-- ===== src/Inspect/ReadFile.antt =====
-- tools/fs-read/src/main.rs, `run`, with `String::from_utf8` of the standard library.
pub mod Cut
use pantheon_tools_catalog.Prelude.{
  ℕ, zero, suc, ◌+◌, ◌-◌, ◌*◌, Bool, true, false, not, ◌&&◌, ◌||◌, Option, none, some, List, [],
  ◌∷◌, ◌++◌, length, take, leb, ltb, ◌==◌, if◌then◌else◌, unwrap_or, ok_or, ensure, Result, ok, err,
  ◌>>=◌, ◌>>◌,
}
use pantheon_tools_catalog.Text.{Text, codes, text_eq}
use pantheon_tools_catalog.Serde.{Serde, str_arg, u64_arg, as_usize}
use pantheon_tools_catalog.Fs.{DirEntry, Metadata, World, Read, bytes, io_error, is_file}
use pantheon_tools_catalog.Hash.{Hasher, hex_lower}
use pantheon_tools_catalog.Inspect.Base64.{b64_encode}

pub data Error : Type 0 where
  args_not_json path_missing bad_encoding stat_failed not_regular open_failed read_failed : Error
  not_utf8 : Error

-- Between two characters, or in one: the bytes left after the next one, the range of the next one,
-- and the number so far.
pub data Expect : Type 0 where
  start : Expect
  inside : ℕ → ℕ → ℕ → ℕ → Expect

unfoldable pub utf8_step : Expect → ℕ → Option (Expect × Option ℕ)
utf8_step start b =
    if ltb b 128
    then some (start, some b)
    else if leb 194 b && leb b 223
    then some (inside 0 128 191 (b - 192), none)
    else if b == 224
    then some (inside 1 160 191 0, none)
    else if b == 237
    then some (inside 1 128 159 13, none)
    else if leb 225 b && leb b 239
    then some (inside 1 128 191 (b - 224), none)
    else if b == 240
    then some (inside 2 144 191 0, none)
    else if leb 241 b && leb b 243
    then some (inside 2 128 191 (b - 240), none)
    else if b == 244
    then some (inside 2 128 143 4, none)
    else none
utf8_step (inside left lo hi code) b =
    if leb lo b && leb b hi
    then (let code' = code * 64 + (b - 128) in
        elim left [ zero ↦ some (start, some code') | suc n ↦ some (inside n 128 191 code', none) ])
    else none

-- `String::from_utf8`, from a place in the bytes
unfoldable pub utf8_from : Expect → List ℕ → Option Text
unfolding utf8_step
utf8_from start [] = some []
utf8_from (inside _ _ _ _) [] = none
utf8_from e (b ∷ bs) = elim (utf8_step e b) [
  | none ↦ none
  | some (next, none) ↦ utf8_from next bs
  | some (next, some c) ↦ elim (utf8_from next bs) [ none ↦ none | some t ↦ some (c ∷ t) ]
]

-- `f.take(n).read_to_end(..)`: the reads until the limit, the end or an error
unfoldable pub read_limited : ℕ → List Read → Option (List ℕ)
read_limited n [] = some []
read_limited zero (r ∷ reads) = some []
read_limited (suc n) (io_error ∷ reads) = none
read_limited (suc n) (bytes [] ∷ reads) = some []
read_limited (suc n) (bytes (b ∷ bs) ∷ reads) = elim (read_limited (n - length bs) reads) [
  | none ↦ none
  | some rest ↦ some (take (suc n) (b ∷ bs) ++ rest)
]

pub record Output : Type 0 where
  pub size_bytes : ℕ
  pub read_bytes : ℕ
  pub sha256 : Text
  pub truncated : Bool
  pub content : Text

unfoldable pub content_of : Text → List ℕ → Result Error Text
unfolding text_eq
content_of encoding buf =
    if text_eq encoding (codes "base64")
    then ok (b64_encode buf)
    else ok_or (utf8_from start buf) not_utf8

unfoldable pub read_file : Hasher → DirEntry → ℕ → Text → Result Error Output
read_file h file max_bytes encoding = do
  meta ← ok_or file.stat stat_failed
  ensure (is_file meta) not_regular
  reads ← ok_or file.open_reads open_failed
  all ← ok_or (read_limited (max_bytes + 1) reads) read_failed
  let truncated = ltb max_bytes (length all)
  let buf = if truncated then take max_bytes all else all
  content ← content_of encoding buf
  ok (record {
    size_bytes = meta.len;
    read_bytes = length buf;
    sha256 = hex_lower (h.finalize (h.update h.new buf));
    truncated = truncated;
    content = content;
  })

unfoldable pub run : Serde → Hasher → World → Option Text → Result Error Output
unfolding read_file content_of read_limited utf8_from b64_encode hex_lower text_eq
run j h w raw = do
  a ← ok_or (j.from_str (unwrap_or raw (codes "{}"))) args_not_json
  path ← ok_or (str_arg j a "path") path_missing
  let max_bytes = as_usize (unwrap_or (u64_arg j a "max_bytes") 65536)
  let encoding = unwrap_or (str_arg j a "encoding") (codes "utf8")
  ensure (text_eq encoding (codes "utf8") || text_eq encoding (codes "base64")) bad_encoding
  read_file h (w.file_at path) max_bytes encoding
