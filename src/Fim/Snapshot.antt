-- ===== src/Fim/Snapshot.antt =====
-- tools/fim-snapshot/src/main.rs
pub mod Listing
use pantheon_tools_catalog.Prelude.{
  ℕ, Bool, true, false, not, Option, none, some, List, [], ◌∷◌, ◌++◌, foldl, length, leb, ltb, ◌==◌,
  if◌then◌else◌, unwrap_or, and_then, ok_or, ensure, Result, ok, err, ◌>>=◌, ◌>>◌, Ordering,
}
use pantheon_tools_catalog.Text.{Text, codes}
use pantheon_tools_catalog.Text.Order.{text_cmp}
use pantheon_tools_catalog.Glob.{glob_match}
use pantheon_tools_catalog.Text.Utf8.{as_bytes}
use pantheon_tools_catalog.Serde.{Serde, str_arg, u64_arg, as_usize}
use pantheon_tools_catalog.Fs.{DirEntry, Metadata, Dir, World, is_file, mtime_unix}
use pantheon_tools_catalog.Hash.{Hasher, sha256_file, hex_lower}
use pantheon_tools_catalog.Walk
use pantheon_tools_catalog.Walk.{Visitor}
use pantheon_tools_catalog.Sort.{sort}

-- The error payloads of `run`, without their texts.
pub data Error : Type 0 where
  args_not_json max_files_zero : Error
  root_not_dir : Text → Error

pub record Ctx : Type 0 where
  pub name_glob : Option Text
  pub max_files : ℕ
  pub max_file_bytes : ℕ
  pub max_depth : ℕ

pub record Entry : Type 0 where
  pub path : Text
  pub sha256 : Text
  pub size_bytes : ℕ
  pub modified_unix : Option ℕ

pub record Output : Type 0 where
  pub root : Text
  pub count : ℕ
  pub truncated : Bool
  pub files : List Entry
  pub snapshot_sha256 : Text

-- `if let Some(g) = &ctx.name_glob { if !glob_match(g, &name) { continue; } }`
unfoldable pub name_passes : Option Text → Text → Bool
name_passes none name = true
name_passes (some g) name = glob_match g name

-- `x.path.cmp(&y.path)`, as the test that keeps two neighbours in place
unfoldable pub path_le : Entry → Entry → Bool
path_le x y = elim (text_cmp x.path y.path) [ Ordering.gt ↦ false | _ ↦ true ]

-- The arguments that `run` reads: the root and the bounds.
unfoldable pub read_args : (j : Serde) → Option Text → Result Error (Text × Ctx)
read_args j raw = do
  a ← ok_or (j.from_str (unwrap_or raw (codes "{}"))) args_not_json
  let root = unwrap_or (str_arg j a "root") (codes "/work")
  let max_files = as_usize (unwrap_or (u64_arg j a "max_files") 5000)
  let max_file_bytes = unwrap_or (u64_arg j a "max_file_bytes") 10485760
  let max_depth = as_usize (unwrap_or (u64_arg j a "max_depth") 20)
  ensure (not (max_files == 0)) max_files_zero
  ok (
    root,
    record {
      name_glob = str_arg j a "name_glob";
      max_files = max_files;
      max_file_bytes = max_file_bytes;
      max_depth = max_depth;
    },
  )

module _ (h : Hasher) (ctx : Ctx) where
  -- the body of the loop of `walk`, at an entry with metadata
  unfoldable pub visit : DirEntry → Metadata → List Entry → List Entry
  unfolding name_passes
  visit e m out =
      if is_file m
      then (if name_passes ctx.name_glob e.file_name
          then (if ltb ctx.max_file_bytes m.len then out else elim (sha256_file h e) [
            | none ↦ out
            | some sha256 ↦
                out
                ++ record {
                  path = e.path;
                  sha256 = sha256;
                  size_bytes = m.len;
                  modified_unix = mtime_unix m;
                }
                  ∷ []
          ])
          else out)
      else out

  abbrev pub visitor : Visitor (List Entry)
  visitor = record { full = λ out. leb ctx.max_files (length out); visit = visit }

  unfoldable pub walk : Dir → ℕ → List Entry → List Entry
  walk = Walk.walk visitor ctx.max_depth

-- `path:sha256\n` of each file, fed to the hash
unfoldable pub fingerprint : Hasher → List Entry → Text
unfolding hex_lower as_bytes
fingerprint h files = hex_lower (
    h.finalize (
      foldl
        (λ s e.
          h.update
            (h.update (h.update (h.update s (as_bytes e.path)) (b':' ∷ [])) (as_bytes e.sha256))
            (10 ∷ []))
        h.new files))

unfoldable pub snapshot : Hasher → Text → Ctx → Dir → Output
unfolding path_le
snapshot h root ctx dir =
    let out = walk h ctx dir 0 [] in
    let files = sort path_le out in
    record {
      root = root;
      count = length files;
      truncated = leb ctx.max_files (length out);
      files = files;
      snapshot_sha256 = fingerprint h files;
    }

unfoldable pub run : Serde → Hasher → World → Option Text → Result Error Output
run j h w raw = do
  (root, ctx) ← read_args j raw
  ensure (w.path_is_dir root) (root_not_dir root)
  ok (snapshot h root ctx (w.read_dir root))
