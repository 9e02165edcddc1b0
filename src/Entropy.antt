-- ===== src/Entropy.antt =====
-- tools/text-entropy/src/main.rs without its floating point: the bytes that are read, and the counts
-- over them.
pub mod Counts
pub mod Lines
use pantheon_tools_catalog.Prelude.{
  ℕ, zero, suc, ◌+◌, ◌-◌, Bool, true, false, not, ◌&&◌, ◌||◌, Option, none, some, List, [], ◌∷◌,
  length, retain, take, is_empty, leb, ltb, ◌==◌, if◌then◌else◌, unwrap_or, ok_or, ensure, Result,
  ok, err, ◌>>=◌, ◌>>◌,
}
use pantheon_tools_catalog.Text.{Text, codes, split, is_space}
use pantheon_tools_catalog.Serde.{Serde, as_usize, str_arg, u64_arg}
use pantheon_tools_catalog.Fs.{World, is_file}
use pantheon_tools_catalog.Inspect.ReadFile.{read_limited}

pub data Error : Type 0 where
  args_not_json no_source stat_failed not_regular open_failed read_failed : Error

-- `str::as_bytes` and `String::from_utf8_lossy`
pub record Encoding : Type 0 where
  pub as_bytes : Text → List ℕ
  pub lossy : List ℕ → Text

-- The variables of the loop over the bytes.
pub record Tally : Type 0 where
  pub freq : List ℕ
  pub printable : ℕ
  pub lines : ℕ

-- `freq[b as usize] += 1`
unfoldable pub increment : ℕ → List ℕ → List ℕ
increment b [] = []
increment zero (n ∷ ns) = (n + 1) ∷ ns
increment (suc b) (n ∷ ns) = n ∷ increment b ns

unfoldable pub is_printable : ℕ → Bool
is_printable b = (leb 32 b && leb b 126) || b == 9 || b == 10 || b == 13

-- the body of the loop
unfoldable pub visit : ℕ → Tally → Tally
unfolding increment is_printable
visit b t = record {
  freq = increment b t.freq;
  printable = if is_printable b then t.printable + 1 else t.printable;
  lines = if b == 10 then t.lines + 1 else t.lines;
}

unfoldable pub tally : List ℕ → Tally → Tally
unfolding visit
tally [] t = t
tally (b ∷ bytes) t = tally bytes (visit b t)

-- `[0u64; n]`
unfoldable pub zeros : ℕ → List ℕ
zeros zero = []
zeros (suc n) = 0 ∷ zeros n

abbrev pub before_bytes : Tally
unfolding zeros
before_bytes = record { freq = zeros 256; printable = 0; lines = 0 }

-- Whether there is a last byte and it is no line feed.
unfoldable pub unfinished : List ℕ → Bool
unfinished [] = false
unfinished (b ∷ []) = not (b == 10)
unfinished (b ∷ c ∷ bytes) = unfinished (c ∷ bytes)

-- What is reported, with the number of printable bytes in place of its ratio to all.
pub record Output : Type 0 where
  pub bytes : ℕ
  pub printable : ℕ
  pub distinct_bytes : ℕ
  pub lines : ℕ
  pub words : ℕ

-- `split_whitespace().count()`
unfoldable pub count_words : Text → ℕ
unfolding split is_space
count_words s = length (retain (λ w. not (is_empty w)) (split is_space s))

unfoldable pub count_lines : List ℕ → ℕ
unfolding tally unfinished
count_lines bytes =
    let t : Tally = tally bytes before_bytes in if unfinished bytes then t.lines + 1 else t.lines

unfoldable pub statistics : Encoding → List ℕ → Output
unfolding tally count_lines count_words
statistics enc bytes =
    let t : Tally = tally bytes before_bytes in
    if length bytes == 0
    then record { bytes = 0; printable = 0; distinct_bytes = 0; lines = 0; words = 0 }
    else record {
      bytes = length bytes;
      printable = t.printable;
      distinct_bytes = length (retain (λ c. ltb 0 c) t.freq);
      lines = count_lines bytes;
      words = count_words (enc.lossy bytes);
    }

unfoldable pub read_bytes : (j : Serde) → Encoding → World → j.Value → Result Error (List ℕ)
unfolding read_limited
read_bytes j enc w a =
    let max_bytes = as_usize (unwrap_or (u64_arg j a "max_bytes") 1048576) in
    elim (str_arg j a "text") [
      | some t ↦ ok (take max_bytes (enc.as_bytes t))
      | none ↦ do
        p ← ok_or (str_arg j a "path") no_source
        meta ← ok_or (w.file_at p).stat stat_failed
        ensure (is_file meta) not_regular
        reads ← ok_or (w.file_at p).open_reads open_failed
        ok_or (read_limited max_bytes reads) read_failed
    ]

unfoldable pub run : Serde → Encoding → World → Option Text → Result Error Output
unfolding read_bytes statistics
run j enc w raw = do
  a ← ok_or (j.from_str (unwrap_or raw (codes "{}"))) args_not_json
  bytes ← read_bytes j enc w a
  ok (statistics enc bytes)
