-- ===== src/Examples/Snapshots.antt =====
-- A snapshot of a tree with one file, and the drift from it.
use pantheon_tools_catalog.Prelude.{
  ◌≡◌, ◌<◌, refl, sym, ap, subst, ◌∙◌, false, none, some, [], ◌∷◌, length, ok, arith, inl, inr,
}
use pantheon_tools_catalog.Text.{Text, codes, text_eq}
use pantheon_tools_catalog.Map.{Map}
use pantheon_tools_catalog.Fs.{Dir, listed, entry, end, unlisted, mtime_unix}
use pantheon_tools_catalog.Hash.{sha256_file}
use pantheon_tools_catalog.Walk.Spec.{collect}
use pantheon_tools_catalog.Fim.Snapshot.{Ctx, Entry, snapshot, visit, walk, name_passes}
use pantheon_tools_catalog.Sort.{sort}
use pantheon_tools_catalog.Walk
use pantheon_tools_catalog.Fim.Snapshot.Listing.{listing}
use pantheon_tools_catalog.Fim.Diff.{diff}
use pantheon_tools_catalog.Fim.Diff.Baseline.{load_baseline}
use pantheon_tools_catalog.Fim.RoundTrip.{same_bounds, Describes, diff-snapshot}
use pantheon_tools_catalog.Fim.RoundTrip.Entries.{Functional}
use pantheon_tools_catalog.Examples.{
  Json, str, array, object, item, no_items, member, no_members, json, hasher, sub_dir, b_txt, world,
}

abbrev small_tree : Dir
small_tree = listed (entry sub_dir (listed (entry b_txt unlisted end)) end)

abbrev ctx : Ctx
ctx = record { name_glob = none; max_files = 2; max_file_bytes = 100; max_depth = 20 }

abbrev b_entry : Entry
b_entry = record {
  path = codes "/work/sub/b.txt";
  sha256 = codes "0b";
  size_bytes = 3;
  modified_unix = some 1700000000;
}

small_listing : listing hasher ctx small_tree ≡ b_entry ∷ []
unfolding collect name_passes sha256_file mtime_unix
small_listing = refl

small_files : (snapshot hasher (codes "/work") ctx small_tree).files ≡ b_entry ∷ []
unfolding snapshot walk collect name_passes sha256_file mtime_unix sort Walk.walk visit
small_files = refl

small-fits : length (listing hasher ctx small_tree) < 2
small-fits = rw small_listing (omega arith)

one-Functional : Functional (b_entry ∷ [])
one-Functional d e (inl p) (inl q) r = ap (λ x. x.sha256) (p ∙ sym q)
one-Functional d e (inl p) (inr i) r = absurd i
one-Functional d e (inr i) _ r = absurd i

abbrev b_item : Json
b_item = object (
    member (codes "path") (str (codes "/work/sub/b.txt"))
      (member (codes "sha256") (str (codes "0b")) no_members))

abbrev b_files : Json
b_files = array (item b_item no_items)

abbrev baseline : Json
baseline = object (member (codes "files") b_files no_members)

diff-snapshot_example :
    (b : Map Text) × (load_baseline json world baseline ≡ ok b)
    × ((diff hasher (codes "/work") (same_bounds ctx) b small_tree).drift ≡ false)
unfolding text_eq
diff-snapshot_example =
    diff-snapshot hasher ctx json world baseline b_files (b_item ∷ []) (codes "/work") small_tree
      small-fits (subst Functional (sym small_listing) one-Functional) refl refl refl
      (subst (Describes json (b_item ∷ [])) (sym small_files) (refl, refl, tt))
