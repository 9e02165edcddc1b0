-- ===== src/Vuln.antt =====
-- tools/vuln-match/src/main.rs
pub mod Version
pub mod Exposed
use pantheon_tools_catalog.Prelude.{
  ℕ, zero, suc, ◌^◌, max, Bool, true, false, not, ◌||◌, Option, none, some, List, [], ◌∷◌, ◌++◌,
  length, any, filter_map, if◌then◌else◌, unwrap_or, ok_or, Result, ok, err, ◌>>=◌, is_empty,
  flat_map, Ordering,
}
use pantheon_tools_catalog.Text.{Text, codes, text_eq, eq_ignore_case}
use pantheon_tools_catalog.Serde.{Serde, str_arg, array_arg}
use Version.{ver_cmp}

pub data Error : Type 0 where
  args_not_json packages_missing advisories_missing : Error

pub record Package : Type 0 where
  pub name : Text
  pub version : Text

pub record Advisory : Type 0 where
  pub package_name : Text
  pub severity : Text
  pub id : Text
  -- the strings of the list of vulnerable versions, if there is a list
  pub vulnerable : Option (List Text)
  pub fixed_version : Option Text

pub record Match : Type 0 where
  pub package_name : Text
  pub version : Text
  pub id : Text
  pub severity : Text
  pub fixed_version : Option Text

module _ (j : Serde) where
  unfoldable pub read_package : j.Value → Package
  read_package pkg = record {
    name = unwrap_or (str_arg j pkg "name") [];
    version = unwrap_or (str_arg j pkg "version") [];
  }

  unfoldable pub read_advisory : j.Value → Advisory
  read_advisory adv = record {
    package_name = unwrap_or (str_arg j adv "package") [];
    severity = unwrap_or (str_arg j adv "severity") (codes "unknown");
    id = unwrap_or (str_arg j adv "id") (codes "(no id)");
    vulnerable = elim (array_arg j adv "vulnerable") [
      | none ↦ none
      | some arr ↦ some (filter_map j.as_str arr)
    ];
    fixed_version = str_arg j adv "fixed_version";
  }

unfoldable pub exact_hit : Advisory → Text → Bool
exact_hit adv version = elim adv.vulnerable [
  | none ↦ false
  | some vs ↦ any (λ v. text_eq v version) vs
]

-- `ver_cmp(version, fixed) == Ordering::Less`
unfoldable pub range_hit : Advisory → Text → Bool
range_hit adv version = elim adv.fixed_version [
  | none ↦ false
  | some fixed ↦ elim (ver_cmp version fixed) [ Ordering.lt ↦ true | _ ↦ false ]
]

abbrev pub match_of : Package → Advisory → Match
match_of p a = record {
  package_name = p.name;
  version = p.version;
  id = a.id;
  severity = a.severity;
  fixed_version = a.fixed_version;
}

-- the body of `for adv in advisories`
unfoldable pub match_one : Package → Advisory → List Match
unfolding exact_hit range_hit
match_one p a =
    if not (eq_ignore_case a.package_name p.name)
    then []
    else if exact_hit a p.version || range_hit a p.version
    then match_of p a ∷ []
    else []

-- the body of `for pkg in packages`
unfoldable pub match_package : List Advisory → Package → List Match
unfolding match_one
match_package advisories p = if is_empty p.name then [] else flat_map (match_one p) advisories

unfoldable pub match_all : List Package → List Advisory → List Match
unfolding match_package
match_all packages advisories = flat_map (match_package advisories) packages

pub record Output : Type 0 where
  pub packages : ℕ
  pub advisories : ℕ
  pub match_count : ℕ
  pub matches : List Match

abbrev pub map_list {ℓ κ} : {A : Type ℓ} {B : Type κ} → (A → B) → List A → List B
map_list f [] = []
map_list f (x ∷ xs) = f x ∷ map_list f xs

unfoldable pub run : Serde → Option Text → Result Error Output
run j raw = do
  a ← ok_or (j.from_str (unwrap_or raw (codes "{}"))) args_not_json
  packages ← ok_or (array_arg j a "packages") packages_missing
  advisories ← ok_or (array_arg j a "advisories") advisories_missing
  let matches =
      match_all (map_list (read_package j) packages) (map_list (read_advisory j) advisories)
  ok (record {
    packages = length packages;
    advisories = length advisories;
    match_count = length matches;
    matches = matches;
  })
