-- ===== src/Secrets/Scan.antt =====
-- `scan_line`, `scan_file` and `walk` of tools/secret-scan/src/main.rs. Places in a line are counted
-- in characters where the source counts bytes: matches begin and end between characters, and what
-- the entropy heuristic looks at is ASCII. `shannon`, which computes with floating-point numbers, is
-- a parameter: the test of a token's entropy against the threshold.
use pantheon_tools_catalog.Prelude.{
  ℕ, suc, ◌-◌, Bool, true, ◌&&◌, ◌||◌, Option, none, some, List, [], ◌∷◌, ◌++◌, map, length, any,
  flat_map, filter_map, foldl, leb, ltb, ◌==◌, if◌then◌else◌, and_then,
}
use pantheon_tools_catalog.Text.{Text, codes, lines, text_eq, is_digit}
use pantheon_tools_catalog.Text.Find.{contains}
use pantheon_tools_catalog.Glob.{glob_match}
use pantheon_tools_catalog.Fs.{DirEntry, Metadata, Dir, Contents, unreadable, binary, text, is_file}
use pantheon_tools_catalog.Walk
use pantheon_tools_catalog.Walk.{Visitor}
use pantheon_tools_catalog.Patterns.{Match, Captures, group}
use pantheon_tools_catalog.Masking.{Span, slice, masked_excerpt}

abbrev pub private_key_block : Text
private_key_block = codes "private-key-block"

abbrev pub entropy_rule : Text
entropy_rule = codes "high-entropy-string"

abbrev pub entropy_min_len : ℕ
entropy_min_len = 20

-- `Rule`, with the method of its regex
pub record Rule : Type 0 where
  pub id : Text
  pub captures_iter : Text → List Captures
  pub secret_group : ℕ

-- `Ctx`, with `shannon(..) > ENTROPY_THRESHOLD`
pub record Ctx : Type 0 where
  pub rules : List Rule
  pub high_entropy : Text → Bool
  pub name_glob : Option Text
  pub max_matches : ℕ
  pub max_file_bytes : ℕ
  pub max_depth : ℕ
  pub allowlist : List Text

pub record Hit : Type 0 where
  pub rule : Text
  pub span : Span

unfoldable pub is_token_byte : ℕ → Bool
unfolding is_digit
is_token_byte b =
    (leb b'A' b && leb b b'Z')
    || (leb b'a' b && leb b b'z')
    || is_digit b
    || b == b'+'
    || b == b'/'
    || b == b'='
    || b == b'_'
    || b == b'-'

-- `caps.get(r.group).or_else(|| caps.get(0))`
abbrev pub secret_of : Rule → Captures → Option Match
secret_of r c = elim (group c r.secret_group) [ none ↦ group c 0 | some m ↦ some m ]

-- the body of the loop over the captures; a key block is masked to the end of the line
unfoldable pub rule_hit : Text → Rule → Captures → Option Hit
unfolding text_eq
rule_hit line r c = and_then (secret_of r c) λ m.
    let stop = if text_eq r.id private_key_block then length line else m.stop in
    some (record { rule = r.id; span = (m.start, stop) })

unfoldable pub rule_hits : Ctx → Text → List Hit
unfolding rule_hit
rule_hits ctx line = flat_map (λ r. filter_map (rule_hit line r) (r.captures_iter line)) ctx.rules

-- The maximal runs of token bytes from the place `i` on, where one may have begun already.
unfoldable pub token_runs : ℕ → Option ℕ → Text → List Span
unfolding is_token_byte
token_runs i none [] = []
token_runs i (some start) [] = (start, i) ∷ []
token_runs i none (c ∷ s) = token_runs (suc i) (if is_token_byte c then some i else none) s
token_runs i (some start) (c ∷ s) =
    let longer = token_runs (suc i) (some start) s in
    let ended = (start, i) ∷ token_runs (suc i) none s in if is_token_byte c then longer else ended

unfoldable pub overlaps : Span → List Hit → Bool
overlaps (start, stop) = any (λ h. ltb ((h.span).0) stop && ltb start ((h.span).1))

-- the rest of the loop at one run
unfoldable pub token_step : Ctx → Text → List Hit → Span → List Hit
unfolding overlaps slice
token_step ctx line hits (start, stop) =
    if ltb (stop - start) entropy_min_len || overlaps (start, stop) hits
    then hits
    else if ctx.high_entropy (slice line start stop)
    then hits ++ record { rule = entropy_rule; span = (start, stop) } ∷ []
    else hits

unfoldable pub scan_line : Ctx → Text → List Hit
unfolding rule_hits token_runs token_step
scan_line ctx line = foldl (token_step ctx line) (rule_hits ctx line) (token_runs 0 none line)

pub record Found : Type 0 where
  pub path : Text
  pub line : ℕ
  pub rule : Text
  pub excerpt : Text

module _ (ctx : Ctx) where
  abbrev pub full : List Found → Bool
  full out = leb ctx.max_matches (length out)

  -- The loop over the hits of a line, with the rules that were seen. A `return` at the bound
  -- leaves a full list, which the later rounds leave alone.
  unfoldable pub push_hits : Text → ℕ → Text → List Text → List Hit → List Found → List Found
  unfolding text_eq
  push_hits path lineno excerpt seen [] out = out
  push_hits path lineno excerpt seen (h ∷ hits) out =
      let skipped = push_hits path lineno excerpt seen hits out in
      let pushed =
        push_hits path lineno excerpt (seen ++ h.rule ∷ []) hits
          (out ++ record { path = path; line = lineno; rule = h.rule; excerpt = excerpt } ∷ []) in
      if any (text_eq h.rule) seen then skipped else if full out then out else pushed

  -- the body of the loop over the lines
  unfoldable pub line_step : Text → ℕ → Text → List Found → List Found
  unfolding contains scan_line push_hits masked_excerpt
  line_step path lineno line out =
      if any (λ s. contains s line) ctx.allowlist
      then out
      else (let hits = scan_line ctx line in
          push_hits path lineno (masked_excerpt line (map (λ (h : Hit). h.span) hits)) [] hits out)

  unfoldable pub scan_lines : Text → ℕ → List Text → List Found → List Found
  unfolding line_step
  scan_lines path i [] out = out
  scan_lines path i (line ∷ rest) out =
      let later = scan_lines path (suc i) rest (line_step path (suc i) line out) in
      if full out then out else later

  unfoldable pub scan_text : DirEntry → Contents → List Found → List Found
  unfolding scan_lines lines
  scan_text e unreadable out = out
  scan_text e binary out = out
  scan_text e (text t) out = scan_lines e.path 0 (lines t) out

  unfoldable pub scan_file : DirEntry → List Found → List Found
  unfolding scan_text
  scan_file e out = if full out then out else elim e.stat [
    | none ↦ out
    | some m ↦ if ltb ctx.max_file_bytes m.len then out else scan_text e e.contents out
  ]

  abbrev pub name_passes : Text → Bool
  name_passes name = elim ctx.name_glob [ none ↦ true | some g ↦ glob_match g name ]

  -- the body of the loop of `walk`, at an entry that is no directory
  unfoldable pub visit : DirEntry → Metadata → List Found → List Found
  unfolding scan_file glob_match
  visit e m out = if is_file m && name_passes e.file_name then scan_file e out else out

  abbrev pub visitor : Visitor (List Found)
  visitor = record { full = full; visit = visit }

  unfoldable pub walk : Dir → ℕ → List Found → List Found
  walk = Walk.walk visitor ctx.max_depth
