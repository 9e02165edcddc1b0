-- ===== src/Compliance/Config.antt =====
-- `eval_config` of tools/compliance-scan/src/main.rs.
pub mod Allowed
use pantheon_tools_catalog.Prelude.{
  Bool, true, not, ◌||◌, Option, none, some, List, [], ◌∷◌, map, is_empty, if◌then◌else◌, unwrap_or,
  and_then, Result, ok, err, ◌>>=◌, ◌>>◌, ensure,
}
use pantheon_tools_catalog.Text.{Text, codes, text_eq, to_lower}
use pantheon_tools_catalog.Compliance.Host.{Host, FsErr, denied, missing, failed}
use pantheon_tools_catalog.Compliance.Sshd.{Lookup, file_missing, absent, found, sshd_effective}
use pantheon_tools_catalog.Compliance.Outcomes.{
  Rule, pass, fail, unknown, config_value, config_unset, config_missing, config_denied, config_path,
  met, absent_as_required, value_not_allowed, directive_unset, config_file_missing,
  config_file_vanished, fs_read_denied, provider_error, Finding, res, bad_rule, is_listed,
}

-- the allowed values, in lower case; `none` is a rule without any
unfoldable pub allowed_values : Rule → Option (List Text)
unfolding to_lower
allowed_values r = elim r.allowed [
  | some a ↦ some (map to_lower a)
  | none ↦ and_then r.expected (λ e. some (to_lower e ∷ []))
]

unfoldable pub judge : Text → Text → List Text → Text → Text → Finding
unfolding text_eq to_lower
judge path directive allowed value source =
    let ev = config_value path directive value source allowed in
    if is_listed (to_lower value) allowed then res pass ev met else res fail ev value_not_allowed

-- what `eval_config` makes of the effective value
unfoldable pub conclude :
    Text → Text → List Text → Option Text → Text → Result FsErr Lookup → Finding
unfolding judge text_eq
conclude path directive allowed default missing_file answer = elim answer [
  | ok (found s) ↦ judge path directive allowed s.value s.file
  | ok absent ↦ elim default [
    | some d ↦ judge path directive allowed d (codes "default (not set in the file)")
    | none ↦ res unknown (config_unset path directive) directive_unset
  ]
  | ok file_missing ↦
      if text_eq missing_file (codes "pass")
      then res pass (config_missing path) absent_as_required
      else if text_eq missing_file (codes "fail")
      then res fail (config_missing path) config_file_missing
      else res unknown (config_missing path) config_file_missing
  | err (denied m) ↦ res unknown (config_denied path) (fs_read_denied m)
  | err missing ↦ res unknown (config_path path) config_file_vanished
  | err (failed m) ↦ res unknown (config_path path) (provider_error m)
]

-- The guards of `eval_config`, in the order of the source.
pub record Checked : Type 0 where
  pub path : Text
  pub directive : Text
  pub allowed : List Text
  pub missing_file : Text

abbrev pub need : Option Text → Text → Result Text Text
need none what = err what
need (some a) what = ok a

abbrev pub is_sshd : Option Text → Bool
is_sshd none = true
is_sshd (some f) = text_eq f (codes "sshd")

unfoldable pub check_config : Rule → Result Text Checked
unfolding allowed_values text_eq
check_config r = do
  path ← need r.path (codes "rule missing 'path'")
  directive ← need r.directive (codes "rule missing 'directive'")
  allowed ← elim (allowed_values r) [
    | none ↦ err (codes "rule needs 'allowed' (array) or 'expected' (string)")
    | some a ↦ ok a
  ]
  ensure (not (is_empty allowed)) (codes "'allowed' is empty")
  let missing_file = unwrap_or r.missing_file (codes "unknown")
  ensure
      (text_eq missing_file (codes "pass")
        || text_eq missing_file (codes "fail")
        || text_eq missing_file (codes "unknown"))
      (codes "'missing_file' must be pass|fail|unknown")
  ensure (is_sshd r.format) (codes "unsupported format")
  ok (record { path = path; directive = directive; allowed = allowed; missing_file = missing_file })

unfoldable pub eval_config : Rule → Host → Finding
unfolding check_config conclude sshd_effective
eval_config r host = elim (check_config r) [
  | err what ↦ bad_rule what
  | ok c ↦
      conclude c.path c.directive c.allowed r.default c.missing_file
        (sshd_effective host c.path c.directive)
]
