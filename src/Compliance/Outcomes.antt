-- ===== src/Compliance/Outcomes.antt =====
-- The rules and the results of tools/compliance-scan/src/main.rs as data: what is read of a rule,
-- and `res` and `bad_rule`.
use pantheon_tools_catalog.Prelude.{Bool, Option, some, List, filter_map, any, and_then}
use pantheon_tools_catalog.Text.{Text, text_eq}
use pantheon_tools_catalog.Serde.{Serde, str_arg, bool_arg, array_arg}
use pantheon_tools_catalog.Compliance.Host.{OsFacts, PackageInfo}

-- What `eval_rule` and `eval_config` read of a rule, each by `r.get(..)`.
pub record Rule : Type 0 where
  pub id : Option Text
  pub ty : Option Text
  pub severity : Option Text
  -- the texts among the items of the arrays
  pub kind_in : Option (List Text)
  pub allowed : Option (List Text)
  pub expected : Option Text
  pub min_version : Option Text
  pub name : Option Text
  pub installed : Option Bool
  pub state : Option Text
  pub path : Option Text
  pub exists : Option Bool
  pub directive : Option Text
  pub default : Option Text
  pub missing_file : Option Text
  pub format : Option Text

unfoldable pub read_rule : (j : Serde) → j.Value → Rule
read_rule j r =
    let texts : List j.Value → List Text = filter_map j.as_str in
    record {
      id = str_arg j r "id";
      ty = str_arg j r "type";
      severity = str_arg j r "severity";
      kind_in = and_then (array_arg j r "kind_in") (λ a. some (texts a));
      allowed = and_then (array_arg j r "allowed") (λ a. some (texts a));
      expected = str_arg j r "expected";
      min_version = str_arg j r "min_version";
      name = str_arg j r "name";
      installed = bool_arg j r "installed";
      state = str_arg j r "state";
      path = str_arg j r "path";
      exists = bool_arg j r "exists";
      directive = str_arg j r "directive";
      default = str_arg j r "default";
      missing_file = str_arg j r "missing_file";
      format = str_arg j r "format";
    }

pub data Outcome : Type 0 where
  pass fail unknown error : Outcome

-- The evidence, as the fields of its object.
pub data Evidence : Type 0 where
  no_evidence : Evidence
  host_api : Text → Evidence
  os_facts : OsFacts → Evidence
  package_seen : PackageInfo → Evidence
  package_absent : Text → Evidence
  service : Text → Text → Evidence
  sandbox_file : Text → Bool → Evidence
  config_value : Text → Text → Text → Text → List Text → Evidence
  config_unset : Text → Text → Evidence
  config_missing : Text → Evidence
  config_denied : Text → Evidence
  config_path : Text → Evidence

-- The reason, without its wording.
pub data Reason : Type 0 where
  met absent_as_required not_granted not_installed must_be_absent version_low : Reason
  os_kind_not_allowed os_version_low state_unknown state_mismatch no_service : Reason
  file_is_missing file_exists value_not_allowed directive_unset : Reason
  config_file_missing config_file_vanished : Reason
  fs_read_denied provider_error bad_input : Text → Reason
  malformed : Text → Reason

pub record Verdict : Type 0 where
  pub id : Text
  pub ty : Text
  pub outcome : Outcome
  pub evidence : Evidence
  pub reason : Reason
  pub severity : Option Text

-- `res` and `bad_rule`, without the identifier, the type and the severity, which `eval_rule` adds
pub record Finding : Type 0 where
  pub outcome : Outcome
  pub evidence : Evidence
  pub reason : Reason

abbrev pub res : Outcome → Evidence → Reason → Finding
res o ev why = record { outcome = o; evidence = ev; reason = why }

abbrev pub bad_rule : Text → Finding
bad_rule what = res error no_evidence (malformed what)

abbrev pub is_listed : Text → List Text → Bool
is_listed x = any (text_eq x)
