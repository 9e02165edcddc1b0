-- ===== src/Posture/PackageCheck.antt =====
-- tools/package-check/src/main.rs; its `ver_ge` is the one of package-remediate. The packages of the
-- host are a parameter.
pub mod Agreement
use pantheon_tools_catalog.Prelude.{
  Bool, true, false, not, ◌&&◌, Option, none, some, if◌then◌else◌, unwrap_or, ok_or, Result, ok,
  err, ◌>>=◌,
}
use pantheon_tools_catalog.Text.{Text, codes}
use pantheon_tools_catalog.Serde.{Serde, str_arg}
use pantheon_tools_catalog.Remediate.VersionGe.{ver_ge}
use pantheon_tools_catalog.Compliance.Host.{
  PackageInfo, PackageError, package_not_found, package_denied, package_bad_input,
  package_transient,
}

pub data Error : Type 0 where
  args_not_json name_missing not_granted : Error
  bad_input transient : Text → Error

pub data Reason : Type 0 where
  installed_ok not_installed below_minimum not_found : Reason

pub record Output : Type 0 where
  pub name : Text
  pub installed : Bool
  -- `version` and `source`, absent for a package that is not found
  pub found : Option (Text × Text)
  pub min_version : Option Text
  pub pass : Bool
  pub reason : Reason

-- `min.map(|m| ver_ge(&info.version, m)).unwrap_or(true)`
unfoldable pub version_ok : Option Text → Text → Bool
unfolding ver_ge
version_ok none version = true
version_ok (some m) version = ver_ge version m

unfoldable pub judge : Option Text → PackageInfo → Output
unfolding version_ok
judge min info = record {
  name = info.name;
  installed = info.installed;
  found = some (info.version, info.source);
  min_version = min;
  pass = info.installed && version_ok min info.version;
  reason =
      if not info.installed
      then not_installed
      else if not (version_ok min info.version)
      then below_minimum
      else installed_ok;
}

-- `match packages::query(name)`
unfoldable pub conclude : Option Text → Text → Result PackageError PackageInfo → Result Error Output
unfolding judge
conclude min name (ok info) = ok (judge min info)
conclude min name (err package_not_found) = ok (record {
  name = name;
  installed = false;
  found = none;
  min_version = min;
  pass = false;
  reason = not_found;
})
conclude min name (err package_denied) = err not_granted
conclude min name (err (package_bad_input s)) = err (bad_input s)
conclude min name (err (package_transient s)) = err (transient s)

unfoldable pub run :
    Serde → (Text → Result PackageError PackageInfo) → Option Text → Result Error Output
unfolding conclude
run j query raw = do
  a ← ok_or (j.from_str (unwrap_or raw (codes "{}"))) args_not_json
  name ← ok_or (str_arg j a "name") name_missing
  conclude (str_arg j a "min_version") name (query name)
