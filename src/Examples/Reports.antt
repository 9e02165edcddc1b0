-- ===== src/Examples/Reports.antt =====
-- The theorems on snapshots, drift and advisories at concrete inputs.
use pantheon_tools_catalog.Prelude.{
  ◌≡◌, ◌↔◌, refl, ℕ, false, none, some, [], ◌∷◌, min, arith, length, take, In, Ordering,
}
use mathlib.Core.List.{Perm}
use pantheon_tools_catalog.Text.{Text, codes, text_eq}
use pantheon_tools_catalog.Text.Order.{text_cmp}
use pantheon_tools_catalog.Map.{Map, get}
use pantheon_tools_catalog.Map.Sorted as Sorted
use pantheon_tools_catalog.Sort.Laws.{IsSorted}
use pantheon_tools_catalog.Fim.Snapshot.{Ctx, path_le, snapshot}
use pantheon_tools_catalog.Fim.Snapshot.Listing.{listing, snapshot-files}
use pantheon_tools_catalog.Fim.Diff as Diff
use pantheon_tools_catalog.Fim.Diff.{has_drift}
use pantheon_tools_catalog.Fim.Diff.Baseline.{load_level, load_baseline}
use pantheon_tools_catalog.Fim.Diff.Compare.{compare}
use pantheon_tools_catalog.Fim.Diff.Drift.{compare-get}
use pantheon_tools_catalog.Fim.Diff.Quiet.{has_drift-compare}
use pantheon_tools_catalog.Fim.Diff.Current.{Bounded, walk-Bounded}
use pantheon_tools_catalog.Fim.Diff.Levels.{
  IsAnswer, ArrayIsNoObject, load_baseline-meaning, meaning,
}
use pantheon_tools_catalog.Vuln.{Package, Advisory, match_of, match_all}
use pantheon_tools_catalog.Vuln.Exposed.{Exposed, match_all-In}
use pantheon_tools_catalog.Vuln.Version.{ver_cmp}
use pantheon_tools_catalog.Vuln.Version.Order.{SmallerAt, part, ver_cmp-parts}
use pantheon_tools_catalog.Examples.{
  null, num, str, array, object, json, base_file, hasher, tree, world,
}

abbrev ctx : Ctx
ctx = record { name_glob = none; max_files = 2; max_file_bytes = 100; max_depth = 20 }

abbrev diff_ctx : Diff.Ctx
diff_ctx = record {
  name_glob = some (codes "*.txt");
  max_files = 2;
  max_file_bytes = 100;
  max_depth = 20;
}

snapshot-files_example :
    IsSorted path_le (snapshot hasher (codes "/work") ctx tree).files
    × Perm (snapshot hasher (codes "/work") ctx tree).files (take 2 (listing hasher ctx tree))
    × ((snapshot hasher (codes "/work") ctx tree).count ≡ min 2 (length (listing hasher ctx tree)))
snapshot-files_example = snapshot-files hasher (codes "/work") ctx tree

abbrev now : Map Text
now = (codes "a", codes "01") ∷ (codes "b", codes "02") ∷ []

abbrev base : Map Text
base = (codes "a", codes "00") ∷ (codes "c", codes "03") ∷ []

now-IsSorted : Sorted.IsSorted now
unfolding text_cmp
now-IsSorted = (refl, (tt, tt))

compare-get_example :
    (get (codes "a") (compare now base).added ≡ none)
    × (get (codes "a") (compare now base).removed ≡ none)
    × (get (codes "a") (compare now base).modified ≡ some (codes "00", codes "01"))
unfolding get text_eq
compare-get_example = compare-get now base (codes "a") now-IsSorted

has_drift-compare_example :
    (has_drift (compare now now) ≡ false) ↔ ((k : Text) → get k now ≡ get k now)
has_drift-compare_example = has_drift-compare now now now-IsSorted

walk-Bounded_example : Bounded diff_ctx (Diff.walk hasher diff_ctx tree 0 [])
walk-Bounded_example = walk-Bounded hasher diff_ctx tree

json-ArrayIsNoObject : ArrayIsNoObject json
json-ArrayIsNoObject null h = refl
json-ArrayIsNoObject (num n) h = refl
json-ArrayIsNoObject (str s) h = refl
json-ArrayIsNoObject (array vs) h = refl
json-ArrayIsNoObject (object ms) h = ground arith

load_baseline-meaning_example :
    (load_level json world 5 base_file ≡ meaning json world base_file)
    × (load_baseline json world base_file ≡ meaning json world base_file)
    × IsAnswer (load_baseline json world base_file)
load_baseline-meaning_example = load_baseline-meaning json world json-ArrayIsNoObject 3 base_file

abbrev openssl : Package
openssl = record { name = codes "openssl"; version = codes "1.2.9" }

abbrev advisory : Advisory
advisory = record {
  package_name = codes "OpenSSL";
  severity = codes "high";
  id = codes "A1";
  vulnerable = none;
  fixed_version = some (codes "1.2.10");
}

match_all-In_example : In (match_of openssl advisory) (match_all (openssl ∷ []) (advisory ∷ [])) ↔ (
    (p : Package) × In p (openssl ∷ [])
    × ((a : Advisory) × In a (advisory ∷ [])
        × Exposed p a
        × (match_of openssl advisory ≡ match_of p a)))
match_all-In_example = match_all-In (match_of openssl advisory) (openssl ∷ []) (advisory ∷ [])

ver_cmp-parts_example :
    ((ver_cmp (codes "1.2.9") (codes "1.2.10") ≡ Ordering.lt)
      ↔ ((i : ℕ) × SmallerAt (codes "1.2.9") (codes "1.2.10") i))
    × ((ver_cmp (codes "1.2.9") (codes "1.2.10") ≡ Ordering.eq)
        ↔ ((i : ℕ) → part (codes "1.2.9") i ≡ part (codes "1.2.10") i))
ver_cmp-parts_example = ver_cmp-parts (codes "1.2.9") (codes "1.2.10")
