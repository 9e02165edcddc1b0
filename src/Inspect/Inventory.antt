-- ===== src/Inspect/Inventory.antt =====
-- tools/package-drift/src/main.rs and tools/service-baseline-diff/src/main.rs. A `HashMap` is kept as
-- an association list with each key once; the order in which it is iterated is a parameter.
pub mod Reported
pub mod Compliance
use pantheon_tools_catalog.Prelude.{
  ℕ, ◌+◌, Bool, true, false, not, ◌&&◌, Option, none, some, List, [], ◌∷◌, ◌++◌, length, filter_map,
  foldl, is_empty, if◌then◌else◌, unwrap_or, ok_or, Result, ok, err, ◌>>=◌,
}
use pantheon_tools_catalog.Text.{Text, codes, text_eq, to_lower}
use pantheon_tools_catalog.Serde.{Serde, str_arg, array_arg}
use pantheon_tools_catalog.Map.{Map, get, contains_key, insert}

pub data Error : Type 0 where
  args_not_json first_missing second_missing : Error

-- `pairs.collect::<HashMap<_, _>>()`: of two pairs with one key the later one stays
unfoldable pub collect_map : List (Text × Text) → Map Text
unfolding insert
collect_map pairs = foldl (λ m (k, v). insert k v m) [] pairs

module _ (j : Serde) where
  unfoldable pub package_pair : j.Value → Option (Text × Text)
  package_pair p = elim (str_arg j p "name") [
    | none ↦ none
    | some n ↦ if is_empty n then none else some (n, unwrap_or (str_arg j p "version") [])
  ]

  unfoldable pub service_pair : j.Value → Option (Text × Text)
  unfolding to_lower
  service_pair s = elim (str_arg j s "name") [
    | none ↦ none
    | some n ↦
        if is_empty n
        then none
        else some (to_lower n, to_lower (unwrap_or (str_arg j s "state") []))
  ]

  unfoldable pub packages_map : List j.Value → Map Text
  unfolding package_pair collect_map
  packages_map arr = collect_map (filter_map package_pair arr)

  unfoldable pub services_map : List j.Value → Map Text
  unfolding service_pair collect_map
  services_map arr = collect_map (filter_map service_pair arr)

-- `changed` holds the golden and the installed version of a package.
pub record PackageDrift : Type 0 where
  pub added : Map Text
  pub removed : Map Text
  pub changed : Map (Text × Text)

-- the body of `for (name, ver) in &inst`
unfoldable pub drift_one : Map Text → Text → Text → PackageDrift → PackageDrift
unfolding get text_eq
drift_one gold name ver d = elim (get name gold) [
  | none ↦ record d { added = d.added ++ (name, ver) ∷ [] }
  | some gv ↦
      if not (text_eq gv ver) then record d { changed = d.changed ++ (name, (gv, ver)) ∷ [] } else d
]

unfoldable pub drift_installed : Map Text → Map Text → PackageDrift → PackageDrift
unfolding drift_one
drift_installed gold [] d = d
drift_installed gold ((name, ver) ∷ inst) d = drift_installed gold inst (drift_one gold name ver d)

-- `for (name, ver) in &gold`
unfoldable pub drift_golden : Map Text → Map Text → PackageDrift → PackageDrift
unfolding contains_key
drift_golden inst [] d = d
drift_golden inst ((name, ver) ∷ gold) d = drift_golden inst gold (
    if not (contains_key name inst)
    then record d { removed = d.removed ++ (name, ver) ∷ [] }
    else d)

-- `baseline-diff` keeps the expected and the observed state of a mismatch.
pub record ServiceDiff : Type 0 where
  pub mismatches : Map (Text × Text)
  pub missing : Map Text

unfoldable pub diff_one : Map Text → Text → Text → ServiceDiff → ServiceDiff
unfolding get text_eq
diff_one obs name want d = elim (get name obs) [
  | none ↦ record d { missing = d.missing ++ (name, want) ∷ [] }
  | some have ↦
      if not (text_eq have want)
      then record d { mismatches = d.mismatches ++ (name, (want, have)) ∷ [] }
      else d
]

-- `for (name, want) in &exp`
unfoldable pub diff_expected : Map Text → Map Text → ServiceDiff → ServiceDiff
unfolding diff_one
diff_expected obs [] d = d
diff_expected obs ((name, want) ∷ exp) d = diff_expected obs exp (diff_one obs name want d)

unfoldable pub compliant : ServiceDiff → Bool
compliant d = is_empty d.mismatches && is_empty d.missing

unfoldable pub drift_count : PackageDrift → ℕ
drift_count d = length d.added + length d.removed + length d.changed

-- the order in which a map is iterated
module _ (order : Map Text → Map Text) where
  unfoldable pub package_drift : Map Text → Map Text → PackageDrift
  unfolding drift_installed drift_golden
  package_drift inst gold =
      drift_golden inst (order gold)
        (drift_installed gold (order inst) (record { added = []; removed = []; changed = [] }))

  unfoldable pub service_diff : Map Text → Map Text → ServiceDiff
  unfolding diff_expected
  service_diff obs exp = diff_expected obs (order exp) (record { mismatches = []; missing = [] })

  unfoldable pub run_package_drift : Serde → Option Text → Result Error (ℕ × PackageDrift)
  unfolding packages_map package_drift drift_count
  run_package_drift j raw = do
    a ← ok_or (j.from_str (unwrap_or raw (codes "{}"))) args_not_json
    installed ← ok_or (array_arg j a "installed") first_missing
    golden ← ok_or (array_arg j a "golden") second_missing
    let d = package_drift (packages_map j installed) (packages_map j golden)
    ok (drift_count d, d)

  unfoldable pub run_service_diff : Serde → Option Text → Result Error (ℕ × Bool × ServiceDiff)
  unfolding services_map service_diff compliant
  run_service_diff j raw = do
    a ← ok_or (j.from_str (unwrap_or raw (codes "{}"))) args_not_json
    observed ← ok_or (array_arg j a "observed") first_missing
    expected ← ok_or (array_arg j a "expected") second_missing
    let d = service_diff (services_map j observed) (services_map j expected)
    ok (length (services_map j expected), compliant d, d)
