-- ===== src/Inspect/ListDir.antt =====
-- tools/fs-list/src/main.rs, which ends the process where it fails.
use pantheon_tools_catalog.Prelude.{
  ℕ, zero, suc, ◌+◌, ◌≡◌, Bool, false, not, ◌&&◌, Option, none, some, List, [], ◌∷◌, length, min,
  arith, if◌then◌else◌, unwrap_or, ok_or, Result, ok, err, ◌>>=◌,
}
use pantheon_tools_catalog.Text.{Text, codes, starts_with}
use pantheon_tools_catalog.Serde.{Serde, str_arg, u64_arg, bool_arg, as_usize}
use pantheon_tools_catalog.Fs.{
  DirEntry, Metadata, unlisted, listed, Entries, end, failed, entry, World, dir, symlink, is_file,
}

pub data Error : Type 0 where
  args_not_json path_missing read_dir_failed : Error

pub data Item : Type 0 where
  iter_failed : Item
  -- name, kind and size
  named : Text → Text → Option ℕ → Item

unfoldable pub kind_of : Option Metadata → Text
kind_of none = codes "unknown"
kind_of (some m) = elim m.kind [ dir ↦ codes "dir" | symlink ↦ codes "symlink" | _ ↦ codes "file" ]

unfoldable pub size_of : Option Metadata → Option ℕ
size_of none = none
size_of (some m) = if is_file m then some m.len else none

unfoldable pub is_skipped : Bool → DirEntry → Bool
unfolding starts_with
is_skipped include_hidden e = not include_hidden && starts_with (codes ".") e.file_name

-- the loop over `read_dir.take(max_entries)`
unfoldable pub list_entries : Bool → ℕ → Entries → List Item
unfolding kind_of size_of
list_entries include_hidden zero es = []
list_entries include_hidden (suc n) end = []
list_entries include_hidden (suc n) (failed es) = iter_failed ∷ list_entries include_hidden n es
list_entries include_hidden (suc n) (entry e d es) =
    let rest = list_entries include_hidden n es in
    if is_skipped include_hidden e
    then rest
    else named e.file_name (kind_of e.metadata) (size_of e.metadata) ∷ rest

unfoldable pub main : Serde → World → Option Text → Result Error (Text × ℕ × List Item)
unfolding list_entries is_skipped
main j w raw = do
  parsed ← ok_or (j.from_str (unwrap_or raw (codes "{}"))) args_not_json
  path ← ok_or (str_arg j parsed "path") path_missing
  let max_entries = as_usize (unwrap_or (u64_arg j parsed "max_entries") 100)
  let include_hidden = unwrap_or (bool_arg j parsed "include_hidden") false
  elim (w.read_dir path) [
    | unlisted ↦ err read_dir_failed
    | listed es ↦
        let entries = list_entries include_hidden max_entries es in
        ok (path, length entries, entries)
  ]

-- The number of entries of a directory.
abbrev pub count_entries : Entries → ℕ
count_entries end = 0
count_entries (failed es) = suc (count_entries es)
count_entries (entry e d es) = suc (count_entries es)

-- The skipped entries among the first `n`.
abbrev pub count_skipped : Bool → ℕ → Entries → ℕ
count_skipped include_hidden zero es = 0
count_skipped include_hidden (suc n) end = 0
count_skipped include_hidden (suc n) (failed es) = count_skipped include_hidden n es
count_skipped include_hidden (suc n) (entry e d es) =
    let rest = count_skipped include_hidden n es in
    if is_skipped include_hidden e then suc rest else rest

-- Hidden entries that fs-list skips use up its bound: what it lists and what it skips add up to
-- `max_entries`, or to all entries where the directory has fewer.
pub list_entries-counts :
    (include_hidden : Bool) (max_entries : ℕ) (es : Entries)
    → length (list_entries include_hidden max_entries es)
        + count_skipped include_hidden max_entries es
      ≡ min max_entries (count_entries es)
unfolding list_entries
list_entries-counts h zero es = omega arith
list_entries-counts h (suc n) end = omega arith
list_entries-counts h (suc n) (failed es) = omega (arith, list_entries-counts h n es)
list_entries-counts h (suc n) (entry e d es) = ground (arith, list_entries-counts h n es)
