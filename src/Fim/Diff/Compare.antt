-- ===== src/Fim/Diff/Compare.antt =====
-- tools/fim-diff/src/main.rs, the two loops of `run` that compare the maps.
use pantheon_tools_catalog.Prelude.{ℕ, ◌+◌, not, none, some, [], ◌∷◌, ◌++◌, if◌then◌else◌}
use pantheon_tools_catalog.Text.{Text, text_eq}
use pantheon_tools_catalog.Map.{Map, get, contains_key}

-- `modified` holds the old and the new digest of a path.
pub record Report : Type 0 where
  pub added : Map Text
  pub removed : Map Text
  pub modified : Map (Text × Text)
  pub unchanged : ℕ

-- the body of `for (path, sha) in &current`
unfoldable pub compare_one : Map Text → Text → Text → Report → Report
compare_one baseline path sha r = elim (get path baseline) [
  | none ↦ record r { added = r.added ++ (path, sha) ∷ [] }
  | some old ↦
      if not (text_eq old sha)
      then record r { modified = r.modified ++ (path, (old, sha)) ∷ [] }
      else record r { unchanged = r.unchanged + 1 }
]

unfoldable pub compare_current : Map Text → Map Text → Report → Report
unfolding compare_one
compare_current baseline [] r = r
compare_current baseline ((path, sha) ∷ current) r =
    compare_current baseline current (compare_one baseline path sha r)

-- `for (path, sha) in &baseline`
unfoldable pub compare_baseline : Map Text → Map Text → Report → Report
compare_baseline current [] r = r
compare_baseline current ((path, sha) ∷ baseline) r = compare_baseline current baseline (
    if not (contains_key path current)
    then record r { removed = r.removed ++ (path, sha) ∷ [] }
    else r)

unfoldable pub compare : Map Text → Map Text → Report
unfolding compare_current compare_baseline
compare current baseline = compare_baseline current baseline (
    compare_current baseline current
      (record { added = []; removed = []; modified = []; unchanged = 0 }))
