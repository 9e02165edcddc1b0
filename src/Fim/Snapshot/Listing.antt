-- ===== src/Fim/Snapshot/Listing.antt =====
-- What a snapshot lists.
use mathlib.Core.List.{Perm}
use pantheon_tools_catalog.Prelude.{
  ◌≤◌, ◌≡◌, refl, sym, ◌∙◌, ap, Bool, true, false, ◌&&◌, none, some, List, [], ◌∷◌, ◌++◌, arith,
  leb, if◌then◌else◌, length, take, take_all, length-append, length-take, min, append-nil,
}
use pantheon_tools_catalog.Text.{Text}
use pantheon_tools_catalog.Text.Order.{text_cmp_gt}
use pantheon_tools_catalog.Fs.{DirEntry, Metadata, Dir, is_file, mtime_unix}
use pantheon_tools_catalog.Hash.{Hasher, sha256_file}
use pantheon_tools_catalog.Walk.Spec.{collect, Lists, walk-collect}
use pantheon_tools_catalog.Sort.Laws.{IsSorted, sort-perm, sort-IsSorted, length-sort}
use pantheon_tools_catalog.Fim.Snapshot.{
  Ctx, Entry, name_passes, path_le, visit, visitor, walk, snapshot,
}

-- A regular file with a fitting name and size, which can be read.
abbrev pub selected : Ctx → DirEntry → Metadata → Bool
selected ctx e m =
    is_file m && name_passes ctx.name_glob e.file_name && leb m.len ctx.max_file_bytes

abbrev pub hits : Hasher → Ctx → DirEntry → Metadata → List Entry
hits h ctx e m =
    if selected ctx e m
    then elim (sha256_file h e) [
      | none ↦ []
      | some sha256 ↦
          record {
            path = e.path;
            sha256 = sha256;
            size_bytes = m.len;
            modified_unix = mtime_unix m;
          }
          ∷ []
    ]
    else []

abbrev pub listing : Hasher → Ctx → Dir → List Entry
listing h ctx d = collect (hits h ctx) ctx.max_depth d 0

visit-hits :
    (h : Hasher) (ctx : Ctx) (e : DirEntry) (m : Metadata) (out : List Entry)
    → visit h ctx e m out ≡ out ++ hits h ctx e m
unfolding visit
visit-hits h ctx e m out = ground (arith, append-nil out)

length-hits : (h : Hasher) (ctx : Ctx) (e : DirEntry) (m : Metadata) → length (hits h ctx e m) ≤ 1
length-hits h ctx e m = ground arith

visitor-Lists : (h : Hasher) (ctx : Ctx) → Lists (visitor h ctx) (hits h ctx) ctx.max_files
visitor-Lists h ctx = record {
  full_at = λ out. refl;
  appends = λ e m out room.
      visit-hits h ctx e m out
      ∙ sym (
          take_all ctx.max_files (out ++ hits h ctx e m)
            (omega (arith, length-append out (hits h ctx e m), length-hits h ctx e m)));
}

-- The walk lists the selected files of the tree down to `max_depth`, the first `max_files` of them.
pub walk-listing :
    (h : Hasher) (ctx : Ctx) (d : Dir) → walk h ctx d 0 [] ≡ take ctx.max_files (listing h ctx d)
unfolding walk
walk-listing h ctx d = walk-collect (visitor-Lists h ctx) ctx.max_depth d 0

path_le_total : (x y : Entry) → path_le x y ≡ false → path_le y x ≡ true
unfolding path_le
path_le_total x y h = ground (arith, text_cmp_gt x.path y.path)

-- The files of a snapshot stand in the order of their paths, they are the first `max_files`
-- selected files of the tree in some order, and `count` is their number.
pub snapshot-files :
    (h : Hasher) (root : Text) (ctx : Ctx) (d : Dir)
    → IsSorted path_le (snapshot h root ctx d).files
      × Perm (snapshot h root ctx d).files (take ctx.max_files (listing h ctx d))
      × ((snapshot h root ctx d).count ≡ min ctx.max_files (length (listing h ctx d)))
unfolding snapshot
snapshot-files h root ctx d = (
  sort-IsSorted path_le path_le_total (walk h ctx d 0 []),
  rw (← walk-listing h ctx d) (sort-perm path_le (walk h ctx d 0 [])),
  length-sort path_le (walk h ctx d 0 [])
      ∙ ap length (walk-listing h ctx d)
      ∙ length-take ctx.max_files (listing h ctx d),
)

-- `truncated` is set exactly if at least `max_files` files are selected in the tree.
pub snapshot-truncated :
    (h : Hasher) (root : Text) (ctx : Ctx) (d : Dir)
    → (snapshot h root ctx d).truncated ≡ leb ctx.max_files (length (listing h ctx d))
unfolding snapshot
snapshot-truncated h root ctx d =
    rw walk-listing (ground (arith, length-take ctx.max_files (listing h ctx d)))
