-- ===== src/Inspect/Sbom.antt =====
-- tools/sbom-generate/src/main.rs, without the constant parts of the document.
use pantheon_tools_catalog.Prelude.{
  ℕ, ◌≡◌, ◌<◌, ◌≤◌, ◌||◌, Option, none, some, List, [], ◌∷◌, ◌++◌, length, filter_map, is_empty,
  arith, if◌then◌else◌, unwrap_or, ok_or, Result, ok, ◌>>=◌,
}
use pantheon_tools_catalog.Text.{Text, codes, text_eq}
use pantheon_tools_catalog.Serde.{Serde, str_arg, array_arg}

pub data Error : Type 0 where
  args_not_json packages_missing : Error

unfoldable pub purl_type : Text → Text
unfolding text_eq
purl_type source =
    if text_eq source (codes "apt") || text_eq source (codes "dpkg")
    then codes "deb"
    else if text_eq source (codes "rpm")
        || text_eq source (codes "dnf")
        || text_eq source (codes "yum")
    then codes "rpm"
    else if text_eq source (codes "apk")
    then codes "apk"
    else if text_eq source (codes "brew")
    then codes "brew"
    else if text_eq source (codes "winget")
    then codes "winget"
    else codes "generic"

unfoldable pub purl : Text → Text → Text → Text
unfolding purl_type
purl name version source =
    codes "pkg:" ++ purl_type source ++ codes "/" ++ name ++ codes "@" ++ version

pub record Component : Type 0 where
  pub name : Text
  pub version : Text
  pub purl_text : Text

pub record Output : Type 0 where
  pub subject : Text
  pub component_type : Text
  pub components : List Component
  pub component_count : ℕ

module _ (j : Serde) where
  -- the closure of `filter_map`
  unfoldable pub component_of : j.Value → Option Component
  unfolding purl
  component_of p = elim (str_arg j p "name") [
    | none ↦ none
    | some name ↦
        let version = unwrap_or (str_arg j p "version") [] in
        let source = unwrap_or (str_arg j p "source") (codes "generic") in
        if is_empty name
        then none
        else some (record { name = name; version = version; purl_text = purl name version source })
  ]

  unfoldable pub generate : Text → Text → List j.Value → Output
  unfolding component_of
  generate component_type subject packages = record {
    subject = subject;
    component_type = component_type;
    components = filter_map component_of packages;
    component_count = length packages;
  }

  unfoldable pub run : Option Text → Result Error Output
  unfolding generate
  run raw = do
    a ← ok_or (j.from_str (unwrap_or raw (codes "{}"))) args_not_json
    packages ← ok_or (array_arg j a "packages") packages_missing
    let component_type = unwrap_or (str_arg j a "component_type") (codes "application")
    let subject = unwrap_or (str_arg j a "subject") (codes "pantheon-target")
    ok (generate component_type subject packages)

  length-filter_map :
      {A B : Type 0} (f : A → Option B) (xs : List A) → length (filter_map f xs) ≤ length xs
  length-filter_map f [] = omega arith
  length-filter_map f (x ∷ xs) = ground (arith, length-filter_map f xs)

  -- A package without a name is left out of the components, and counted all the same: with one in
  -- the list, `component_count` is more than the number of components.
  pub generate-count :
      (component_type subject : Text) (p : j.Value) (packages : List j.Value)
      → component_of p ≡ none
      → length (generate component_type subject (p ∷ packages)).components
        < (generate component_type subject (p ∷ packages)).component_count
  unfolding generate
  generate-count component_type subject p packages skipped =
      rw (skipped, filter_map) (omega (arith, length-filter_map component_of packages))
