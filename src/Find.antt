-- ===== src/Find.antt =====
-- tools/fs-find/src/main.rs
pub mod Results
use pantheon_tools_catalog.Prelude.{
  ℕ, ◌+◌, ◌%◌, Bool, true, false, not, ◌&&◌, ◌||◌, Option, none, some, List, [], ◌∷◌, ◌++◌, length,
  take, leb, ltb, if◌then◌else◌, unwrap_or, ok_or, ensure, Result, ok, err, ◌>>=◌, ◌>>◌,
}
use pantheon_tools_catalog.Text.{Text, codes, text_eq}
use pantheon_tools_catalog.Glob.{glob_match}
use pantheon_tools_catalog.Serde.{Serde, str_arg, u64_arg, as_usize, usize_mod}
use pantheon_tools_catalog.Fs.{DirEntry, Metadata, Dir, World, is_dir, is_file, mtime_unix}
use pantheon_tools_catalog.Walk
use pantheon_tools_catalog.Walk.{Visitor}

pub data Error : Type 0 where
  args_not_json bad_kind : Error
  root_missing : Text → Error

pub record Filter : Type 0 where
  pub name_glob : Option Text
  pub min_size : Option ℕ
  pub max_size : Option ℕ
  pub after : Option ℕ
  pub before : Option ℕ
  pub kind : Text

pub record Found : Type 0 where
  pub path : Text
  pub kind : Text
  pub size_bytes : ℕ
  pub modified_unix : Option ℕ

unfoldable pub kind_name : Metadata → Text
kind_name m = if is_dir m then codes "dir" else if is_file m then codes "file" else codes "other"

unfoldable pub size_of : Metadata → ℕ
size_of m = if is_file m then m.len else 0

-- `if let Some(x) = o { ok &= test(x) }`
abbrev pub when {ℓ} : {A : Type ℓ} → Option A → (A → Bool) → Bool
when none test = true
when (some x) test = test x

-- `o.map(test).unwrap_or(false)`
abbrev pub holds {ℓ} : {A : Type ℓ} → Option A → (A → Bool) → Bool
holds none test = false
holds (some x) test = test x

-- `ok`, after the six tests
unfoldable pub passes : Filter → DirEntry → Metadata → Bool
unfolding kind_name size_of
passes f e m =
    when f.name_glob (λ g. glob_match g e.file_name)
    && (text_eq f.kind (codes "any") || text_eq f.kind (kind_name m))
    && when f.min_size (λ mn. is_file m && leb mn (size_of m))
    && when f.max_size (λ mx. is_file m && leb (size_of m) mx)
    && when f.after (λ af. holds (mtime_unix m) (λ t. ltb af t))
    && when f.before (λ bf. holds (mtime_unix m) (λ t. ltb t bf))

abbrev pub found : DirEntry → Metadata → Found
found e m = record {
  path = e.path;
  kind = kind_name m;
  size_bytes = size_of m;
  modified_unix = mtime_unix m;
}

-- the body of the loop of `walk`, up to the descent
unfoldable pub visit : Filter → DirEntry → Metadata → List Found → List Found
unfolding passes
visit f e m out = if passes f e m then out ++ found e m ∷ [] else out

abbrev pub visitor : Filter → ℕ → Visitor (List Found)
visitor f max_results = record { full = λ out. leb max_results (length out); visit = visit f }

unfoldable pub walk : ℕ → Filter → ℕ → Dir → ℕ → List Found → List Found
walk max_depth f max_results = Walk.walk (visitor f max_results) max_depth

pub record Output : Type 0 where
  pub root : Text
  pub count : ℕ
  pub truncated : Bool
  pub results : List Found

-- The arguments: root, depth, bound on results and filter.
unfoldable pub read_args : (j : Serde) → Option Text → Result Error (Text × ℕ × ℕ × Filter)
read_args j raw = do
  a ← ok_or (j.from_str (unwrap_or raw (codes "{}"))) args_not_json
  let root = unwrap_or (str_arg j a "root") (codes "/work")
  let kind = unwrap_or (str_arg j a "kind") (codes "any")
  ensure (text_eq kind (codes "any") || text_eq kind (codes "file") || text_eq kind (codes "dir"))
      bad_kind
  let max_depth = as_usize (unwrap_or (u64_arg j a "max_depth") 20)
  let max_results = as_usize (unwrap_or (u64_arg j a "max_results") 1000)
  ok (
    root,
    max_depth,
    max_results,
    record {
      name_glob = str_arg j a "name_glob";
      min_size = u64_arg j a "min_size";
      max_size = u64_arg j a "max_size";
      after = u64_arg j a "modified_after_unix";
      before = u64_arg j a "modified_before_unix";
      kind = kind;
    },
  )

-- `max_results + 1` wraps around in a release build.
unfoldable pub find : Text → ℕ → ℕ → Filter → Dir → Output
find root max_depth max_results f dir =
    let out = walk max_depth f ((max_results + 1) % usize_mod) dir 0 [] in
    let truncated = ltb max_results (length out) in
    let kept = if truncated then take max_results out else out in
    record { root = root; count = length kept; truncated = truncated; results = kept }

unfoldable pub run : Serde → World → Option Text → Result Error Output
run j w raw = do
  (root, max_depth, max_results, f) ← read_args j raw
  ensure (w.path_exists root) (root_missing root)
  ok (find root max_depth max_results f (w.read_dir root))
