-- ===== src/Fim/RoundTrip.antt =====
-- fim-diff on the snapshot that fim-snapshot made of the same tree.
pub mod Entries
use pantheon_tools_catalog.Prelude.{
  ℕ, zero, suc, ◌+◌, ◌≤◌, ◌<◌, ◌≡◌, ◌↔◌, refl, sym, ◌∙◌, ap, subst, Bool, true, false, not, Option,
  none, some, List, [], ◌∷◌, ◌++◌, foldl, length, take, take_all, In, if◌then◌else◌, arith, Result,
  ok, err, inl, inr, leb, and_then,
}
use mathlib.Core.List.{Perm}
use pantheon_tools_catalog.Text.{Text, codes}
use pantheon_tools_catalog.Serde.{Serde, str_arg}
use pantheon_tools_catalog.Fs.{DirEntry, Metadata, Dir, World}
use pantheon_tools_catalog.Hash.{Hasher}
use pantheon_tools_catalog.Map.{Map, get, insert, length-insert}
use pantheon_tools_catalog.Walk.Fold.{Folds, walk-foldl}
use pantheon_tools_catalog.Fim.Snapshot.{Ctx, Entry, snapshot, walk, path_le}
use pantheon_tools_catalog.Fim.Snapshot.Listing.{hits, listing, walk-listing}
use pantheon_tools_catalog.Sort.Members.{In-sort}
use pantheon_tools_catalog.Fim.Diff as Diff
use pantheon_tools_catalog.Fim.Snapshot as Snapshot
use pantheon_tools_catalog.Fim.Diff.{visit, visitor, diff, has_drift}
use pantheon_tools_catalog.Fim.Diff.Baseline.{
  field, read_entries, load_entries, load_level, load_baseline,
}
use pantheon_tools_catalog.Fim.Diff.Compare.{compare}
use pantheon_tools_catalog.Fim.Diff.Current.{walk-Bounded}
use pantheon_tools_catalog.Fim.Diff.Quiet.{has_drift-compare}
use Entries.{put, Functional, get-put_all}

-- fim-diff with the bounds of a snapshot.
abbrev pub same_bounds : Ctx → Diff.Ctx
same_bounds ctx = record {
  name_glob = ctx.name_glob;
  max_files = ctx.max_files;
  max_file_bytes = ctx.max_file_bytes;
  max_depth = ctx.max_depth;
}

-- The items of the `files` array, read back.
abbrev pub Describes : (j : Serde) → List j.Value → List Entry → Type 0
Describes j [] [] = Unit {0}
Describes j [] (e ∷ es) = ⊥
Describes j (i ∷ is) [] = ⊥
Describes j (i ∷ is) (e ∷ es) =
    (str_arg j i "path" ≡ some e.path) × (str_arg j i "sha256" ≡ some e.sha256) × Describes j is es

read_entries-Describes :
    (j : Serde) (n : ℕ) (is : List j.Value) (es : List Entry) (m : Map Text)
    → Describes j is es
    → read_entries j n is m ≡ ok (foldl put m es)
unfolding read_entries put
read_entries-Describes j n [] [] m h = refl
read_entries-Describes j n [] (e ∷ es) m h = absurd h
read_entries-Describes j n (i ∷ is) [] m h = absurd h
read_entries-Describes j n (i ∷ is) (e ∷ es) m (p, s, h) =
    rw (read_entries, p, s) (read_entries-Describes j (suc n) is es (insert e.path e.sha256 m) h)

same_names : (g : Option Text) (name : Text) → Diff.name_passes g name ≡ Snapshot.name_passes g name
unfolding Diff.name_passes Snapshot.name_passes
same_names none name = refl
same_names (some g) name = refl

load_baseline-files :
    (j : Serde) (w : World) (v f : j.Value) (items : List j.Value) (es : List Entry)
    → field j v (codes "path") ≡ none
    → field j v (codes "files") ≡ some f
    → j.as_array f ≡ some items
    → Describes j items es
    → load_baseline j w v ≡ ok (foldl put [] es)
unfolding load_baseline load_level load_entries
load_baseline-files j w v f items es no_path files arr described =
    rw (load_baseline, load_level, no_path, load_entries, files, arr)
      (read_entries-Describes j 0 items es [] described)

module _ (h : Hasher) (ctx : Ctx) where
  visit-put :
      (e : DirEntry) (m : Metadata) (s : Map Text)
      → visit h (same_bounds ctx) e m s ≡ foldl put s (hits h ctx e m)
  unfolding visit put
  visit-put e m s = ground (arith, same_names ctx.name_glob e.file_name)

  visitor-Folds : Folds (visitor h (same_bounds ctx)) (hits h ctx) put length ctx.max_files
  unfolding put
  visitor-Folds = record {
    visits = visit-put;
    full_at = λ s. refl;
    grows = λ s e. length-insert e.path e.sha256 s;
  }

  walk-put :
      (d : Dir)
      → length (listing h ctx d) < ctx.max_files
      → Diff.walk h (same_bounds ctx) d 0 [] ≡ foldl put [] (listing h ctx d)
  unfolding Diff.walk
  walk-put d fits = walk-foldl visitor-Folds ctx.max_depth d 0 [] (omega (arith, fits))

  -- The files of a snapshot that is not cut are the selected files of the tree.
  files-In :
      (root : Text) (d : Dir) (e : Entry)
      → length (listing h ctx d) < ctx.max_files
      → In e (listing h ctx d) ↔ In e (snapshot h root ctx d).files
  unfolding snapshot
  files-In root d e fits =
      let (to, from) = In-sort path_le e (walk h ctx d 0 []) in
      let whole : walk h ctx d 0 [] ≡ listing h ctx d =
        walk-listing h ctx d ∙ take_all ctx.max_files (listing h ctx d) (omega (arith, fits)) in
      (λ i. from (subst (In e) (sym whole) i), λ i. subst (In e) whole (to i))

  -- fim-diff finds no drift where its baseline is the snapshot that fim-snapshot made of the same
  -- tree with the same bounds. The conditions: the bound on files was not reached, no two of the
  -- listed files have one path with different digests, and the baseline is an object without a
  -- string `path`, whose `files` are read back as the files of the snapshot.
  pub diff-snapshot :
      (j : Serde) (w : World) (v f : j.Value) (items : List j.Value) (root : Text) (d : Dir)
      → length (listing h ctx d) < ctx.max_files
      → Functional (listing h ctx d)
      → field j v (codes "path") ≡ none
      → field j v (codes "files") ≡ some f
      → j.as_array f ≡ some items
      → Describes j items (snapshot h root ctx d).files
      → (b : Map Text) × (load_baseline j w v ≡ ok b)
        × ((diff h root (same_bounds ctx) b d).drift ≡ false)
  unfolding diff
  diff-snapshot j w v f items root d fits functional no_path files arr described =
      let fs = (snapshot h root ctx d).files in
      let current = Diff.walk h (same_bounds ctx) d 0 [] in
      let alike : (k : Text) → get k current ≡ get k (foldl put [] fs) = λ k.
        ap (get k) (walk-put d fits)
        ∙ get-put_all k (listing h ctx d) fs functional (λ e. files-In root d e fits) in
      (
        foldl put [] fs,
        load_baseline-files j w v f items fs no_path files arr described,
        (has_drift-compare current (foldl put [] fs) (walk-Bounded h (same_bounds ctx) d).0).1
            alike,
      )
