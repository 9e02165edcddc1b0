-- ===== src/Grep.antt =====
-- tools/fs-grep/src/main.rs
pub mod Results
use pantheon_tools_catalog.Prelude.{
  ℕ, suc, ◌+◌, ◌-◌, ◌%◌, Bool, true, false, not, Option, none, some, List, [], ◌∷◌, ◌++◌, length,
  take, leb, ltb, if◌then◌else◌, unwrap_or, and_then, ok_or, ensure, Result, ok, err, ◌>>=◌, ◌>>◌,
}
use pantheon_tools_catalog.Text.{Text, codes, lines}
use pantheon_tools_catalog.Glob.{glob_match}
use pantheon_tools_catalog.Serde.{Serde, str_arg, u64_arg, bool_arg, as_usize, usize_mod}
use pantheon_tools_catalog.Fs.{
  DirEntry, Metadata, Dir, World, Contents, unreadable, binary, text, is_file,
}
use pantheon_tools_catalog.Walk
use pantheon_tools_catalog.Walk.{Visitor}

pub data Error : Type 0 where
  args_not_json pattern_missing invalid_regex : Error
  root_missing : Text → Error

-- `regex_lite`, which is not part of the repository: `RegexBuilder` with `case_insensitive`, and
-- `is_match` of what it builds.
pub record Regexes : Type 1 where
  pub Regex : Type 0
  pub build : Text → Bool → Option Regex
  pub is_match : Regex → Text → Bool

pub record Match : Type 0 where
  pub path : Text
  pub line : ℕ
  pub shown : Text

unfoldable pub name_passes : Option Text → Text → Bool
name_passes none name = true
name_passes (some g) name = glob_match g name

-- `Ctx`, with the matcher of its regex
pub record Ctx : Type 0 where
  pub is_match : Text → Bool
  pub name_glob : Option Text
  pub max_matches : ℕ
  pub max_file_bytes : ℕ
  pub max_depth : ℕ

module _ (ctx : Ctx) where
  -- the loop over `text.lines().enumerate()`; the first line has the number `i + 1`
  unfoldable pub scan_lines : Text → ℕ → List Text → List Match → List Match
  scan_lines path i [] out = out
  scan_lines path i (line ∷ rest) out =
      let pushed =
        if ctx.is_match line
        then out ++ record { path = path; line = suc i; shown = take 2000 line } ∷ []
        else out in
      let later = scan_lines path (suc i) rest pushed in
      if leb ctx.max_matches (length out) then out else later

  unfoldable pub scan_text : DirEntry → Contents → List Match → List Match
  unfolding scan_lines lines
  scan_text e unreadable out = out
  scan_text e binary out = out
  scan_text e (text t) out = scan_lines e.path 0 (lines t) out

  unfoldable pub scan_file : DirEntry → List Match → List Match
  unfolding scan_text
  scan_file e out = if leb ctx.max_matches (length out) then out else elim e.stat [
    | none ↦ out
    | some m ↦ if ltb ctx.max_file_bytes m.len then out else scan_text e e.contents out
  ]

  -- the body of the loop of `walk`, at an entry that is no directory
  unfoldable pub visit : DirEntry → Metadata → List Match → List Match
  unfolding name_passes scan_file
  visit e m out =
      if is_file m
      then (if name_passes ctx.name_glob e.file_name then scan_file e out else out)
      else out

  abbrev pub visitor : Visitor (List Match)
  visitor = record { full = λ out. leb ctx.max_matches (length out); visit = visit }

  unfoldable pub walk : Dir → ℕ → List Match → List Match
  walk = Walk.walk visitor ctx.max_depth

pub record Output : Type 0 where
  pub pattern : Text
  pub count : ℕ
  pub truncated : Bool
  pub matches : List Match

pub record Args : Type 0 where
  pub pattern : Text
  pub root : Text
  pub ctx : Ctx

unfoldable pub read_args : (j : Serde) → Regexes → Option Text → Result Error Args
read_args j r raw = do
  a ← ok_or (j.from_str (unwrap_or raw (codes "{}"))) args_not_json
  pattern ← ok_or (str_arg j a "pattern") pattern_missing
  let ignore_case = unwrap_or (bool_arg j a "ignore_case") false
  re ← ok_or (r.build pattern ignore_case) invalid_regex
  ok (record {
    pattern = pattern;
    root = unwrap_or (str_arg j a "root") (codes "/work");
    ctx = record {
      is_match = r.is_match re;
      name_glob = str_arg j a "name_glob";
      max_matches = as_usize (unwrap_or (u64_arg j a "max_matches") 500);
      max_file_bytes = unwrap_or (u64_arg j a "max_file_bytes") 1048576;
      max_depth = as_usize (unwrap_or (u64_arg j a "max_depth") 20);
    };
  })

-- The walk with `max_matches + 1`, and the cut. Both sums wrap around in a release build.
unfoldable pub grep : Text → Ctx → Dir → Output
grep pattern ctx dir =
    let cap_ctx : Ctx = record ctx { max_matches = (ctx.max_matches + 1) % usize_mod } in
    let limit = (cap_ctx.max_matches + usize_mod - 1) % usize_mod in
    let out = walk cap_ctx dir 0 [] in
    let truncated = ltb limit (length out) in
    let kept = if truncated then take limit out else out in
    record { pattern = pattern; count = length kept; truncated = truncated; matches = kept }

unfoldable pub run : Serde → Regexes → World → Option Text → Result Error Output
run j r w raw = do
  args ← read_args j r raw
  ensure (w.path_exists args.root) (root_missing args.root)
  ok (grep args.pattern args.ctx (w.read_dir args.root))
