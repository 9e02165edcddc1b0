-- ===== src/Fim/Diff.antt =====
-- tools/fim-diff/src/main.rs
pub mod Baseline
pub mod Compare
pub mod Drift
pub mod Quiet
pub mod Current
pub mod Levels
use pantheon_tools_catalog.Prelude.{
  ℕ, ◌*◌, Bool, true, false, not, ◌||◌, Option, none, some, List, [], ◌∷◌, ◌++◌, length, leb, ltb,
  ◌==◌, if◌then◌else◌, unwrap_or, ok_or, ensure, is_empty, Result, ok, err, ◌>>=◌, ◌>>◌,
}
use pantheon_tools_catalog.Text.{Text, codes}
use pantheon_tools_catalog.Glob.{glob_match}
use pantheon_tools_catalog.Serde.{Serde, str_arg, u64_arg, as_usize}
use pantheon_tools_catalog.Fs.{DirEntry, Metadata, Dir, World, is_file}
use pantheon_tools_catalog.Hash.{Hasher, sha256_file}
use pantheon_tools_catalog.Map.{Map, insert}
use pantheon_tools_catalog.Walk
use pantheon_tools_catalog.Walk.{Visitor}
use Baseline.{Error, load_baseline, args_not_json, max_files_zero, baseline_missing, root_not_dir}
use Compare.{Report, compare}

pub record Ctx : Type 0 where
  pub name_glob : Option Text
  pub max_files : ℕ
  pub max_file_bytes : ℕ
  pub max_depth : ℕ

unfoldable pub name_passes : Option Text → Text → Bool
name_passes none name = true
name_passes (some g) name = glob_match g name

module _ (h : Hasher) (ctx : Ctx) where
  -- the body of the loop of `walk`, at an entry with metadata
  unfoldable pub visit : DirEntry → Metadata → Map Text → Map Text
  unfolding name_passes
  visit e m out =
      if is_file m
      then (if name_passes ctx.name_glob e.file_name
          then (if ltb ctx.max_file_bytes m.len
              then out
              else elim (sha256_file h e) [ none ↦ out | some d ↦ insert e.path d out ])
          else out)
      else out

  abbrev pub visitor : Visitor (Map Text)
  visitor = record { full = λ out. leb ctx.max_files (length out); visit = visit }

  unfoldable pub walk : Dir → ℕ → Map Text → Map Text
  walk = Walk.walk visitor ctx.max_depth

pub record Output : Type 0 where
  pub root : Text
  pub drift : Bool
  pub truncated : Bool
  pub report : Report

unfoldable pub read_args : (j : Serde) → World → Option Text → Result Error (Text × Ctx × Map Text)
read_args j w raw = do
  a ← ok_or (j.from_str (unwrap_or raw (codes "{}"))) args_not_json
  let root = unwrap_or (str_arg j a "root") (codes "/work")
  let max_files = as_usize (unwrap_or (u64_arg j a "max_files") 5000)
  let max_file_bytes = unwrap_or (u64_arg j a "max_file_bytes") 10485760
  let max_depth = as_usize (unwrap_or (u64_arg j a "max_depth") 20)
  ensure (not (max_files == 0)) max_files_zero
  baseline_v ← ok_or (j.get a (codes "baseline")) baseline_missing
  baseline ← load_baseline j w baseline_v
  ok (
    root,
    record {
      name_glob = str_arg j a "name_glob";
      max_files = max_files;
      max_file_bytes = max_file_bytes;
      max_depth = max_depth;
    },
    baseline,
  )

-- `!added.is_empty() || !removed.is_empty() || !modified.is_empty()`
unfoldable pub has_drift : Report → Bool
has_drift r = not (is_empty r.added) || not (is_empty r.removed) || not (is_empty r.modified)

unfoldable pub diff : Hasher → Text → Ctx → Map Text → Dir → Output
unfolding has_drift
diff h root ctx baseline dir =
    let current = walk h ctx dir 0 [] in
    let report = compare current baseline in
    record {
      root = root;
      drift = has_drift report;
      truncated = leb ctx.max_files (length current);
      report = report;
    }

unfoldable pub run : Serde → Hasher → World → Option Text → Result Error Output
run j h w raw = do
  (root, ctx, baseline) ← read_args j w raw
  ensure (w.path_is_dir root) (root_not_dir root)
  ok (diff h root ctx baseline (w.read_dir root))
