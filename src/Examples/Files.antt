-- ===== src/Examples/Files.antt =====
-- The theorems on globs, walks, maps and digests at concrete inputs.
use pantheon_tools_catalog.Prelude.{◌≡◌, ◌≢◌, true, none, some, arith, length, take, ltb}
use pantheon_tools_catalog.Text.{codes}
use pantheon_tools_catalog.Glob.{glob_match, glob_run}
use pantheon_tools_catalog.Glob.Spec.{matches, NoStar}
use pantheon_tools_catalog.Glob.Decides.{glob_match-matches}
use pantheon_tools_catalog.Glob.Total.{glob_run-ne-none}
use pantheon_tools_catalog.Find.{Filter, find}
use pantheon_tools_catalog.Find.Results.{find-matching, matching}
use pantheon_tools_catalog.Grep.{Ctx, grep}
use pantheon_tools_catalog.Grep.Results as GrepResults
use pantheon_tools_catalog.Grep.Results.{grep-matching}
use pantheon_tools_catalog.Examples.{tree}

name-NoStar : NoStar (codes "ab.rs")
name-NoStar = ground arith

glob_match-matches_example :
    glob_match (codes "*b.?s") (codes "ab.rs") ≡ matches (codes "*b.?s") (codes "ab.rs")
glob_match-matches_example = glob_match-matches (codes "*b.?s") (codes "ab.rs") name-NoStar

glob_run-ne-none_example : glob_run (codes "*a*b") (codes "aab*") ≢ none
glob_run-ne-none_example = glob_run-ne-none (codes "*a*b") (codes "aab*")

abbrev text_files : Filter
text_files = record {
  name_glob = some (codes "*.txt");
  min_size = some 1;
  max_size = none;
  after = some 5;
  before = none;
  kind = codes "file";
}

find-matching_example :
    ((find (codes "/work") 20 1 text_files tree).results ≡ take 1 (matching 20 text_files tree))
    × ((find (codes "/work") 20 1 text_files tree).truncated
        ≡ ltb 1 (length (matching 20 text_files tree)))
find-matching_example = find-matching (codes "/work") 20 1 text_files tree (omega arith)

abbrev all_lines : Ctx
all_lines = record {
  is_match = λ _. true;
  name_glob = some (codes "*.txt");
  max_matches = 1;
  max_file_bytes = 1000;
  max_depth = 20;
}

grep-matching_example :
    ((grep (codes ".") all_lines tree).matches ≡ take 1 (GrepResults.matching all_lines tree))
    × ((grep (codes ".") all_lines tree).truncated
        ≡ ltb 1 (length (GrepResults.matching all_lines tree)))
grep-matching_example = grep-matching (codes ".") all_lines tree (omega arith)
