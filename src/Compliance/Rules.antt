-- ===== src/Compliance/Rules.antt =====
-- The evaluation of one rule of tools/compliance-scan/src/main.rs.
pub mod FailSafe
use pantheon_tools_catalog.Prelude.{
  ℕ, Bool, true, false, not, ◌&&◌, ◌||◌, Option, none, some, List, [], ◌∷◌, ◌++◌, map, filter_map,
  any, is_empty, if◌then◌else◌, unwrap_or, and_then, Result, ok, err, ◌>>=◌, ◌>>◌, ensure,
}
use pantheon_tools_catalog.Text.{Text, codes, text_eq, to_lower}
use pantheon_tools_catalog.Serde.{Serde, str_arg, bool_arg, array_arg}
use pantheon_tools_catalog.Remediate.VersionGe.{ver_ge}
use pantheon_tools_catalog.Compliance.Host.{
  Host, OsFacts, FsErr, denied, missing, failed, PackageError, package_not_found, package_denied,
  package_bad_input, package_transient, PackageInfo, ServiceStatus, running, stopped,
  service_failed, unknown_status, ServiceError, service_not_found, service_denied,
  service_transient,
}
use pantheon_tools_catalog.Compliance.Sshd.{
  Lookup, file_missing, absent, found, Setting, sshd_effective,
}
use pantheon_tools_catalog.Compliance.Outcomes.{
  Rule, read_rule, Outcome, pass, fail, unknown, error, Evidence, no_evidence, host_api, os_facts,
  package_seen, package_absent, service, sandbox_file, config_value, config_unset, config_missing,
  config_denied, config_path, Reason, met, absent_as_required, not_granted, not_installed,
  must_be_absent, version_low, os_kind_not_allowed, os_version_low, state_unknown, state_mismatch,
  no_service, file_is_missing, file_exists, value_not_allowed, directive_unset, config_file_missing,
  config_file_vanished, fs_read_denied, provider_error, bad_input, malformed, Verdict, Finding, res,
  bad_rule, is_listed,
}
use pantheon_tools_catalog.Compliance.Config.{
  allowed_values, judge, conclude, Checked, need, is_sshd, check_config, eval_config,
}

-- `m.map(|m| ver_ge(v, m)).unwrap_or(true)`
abbrev pub at_least : Option Text → Text → Bool
at_least none v = true
at_least (some m) v = ver_ge v m

unfoldable pub eval_os : Rule → Result (Unit {0}) OsFacts → Finding
unfolding text_eq ver_ge
eval_os r (err _) = res unknown (host_api (codes "inventory.os-info")) not_granted
eval_os r (ok f) =
    let kind_ok : Bool = elim r.kind_in [ none ↦ true | some ks ↦ is_listed f.kind ks ] in
    if not kind_ok
    then res fail (os_facts f) os_kind_not_allowed
    else if not (at_least r.min_version f.version)
    then res fail (os_facts f) os_version_low
    else res pass (os_facts f) met

abbrev pub same_bool : Bool → Bool → Bool
same_bool true b = b
same_bool false b = not b

unfoldable pub eval_package : Rule → Text → Result PackageError PackageInfo → Finding
unfolding ver_ge
eval_package r name answer =
    let want_installed = unwrap_or r.installed true in
    elim answer [
      | ok info ↦
          if not (same_bool info.installed want_installed)
          then res fail (package_seen info)
              (if want_installed then not_installed else must_be_absent)
          else if want_installed && not (at_least r.min_version info.version)
          then res fail (package_seen info) version_low
          else res pass (package_seen info) met
      | err package_not_found ↦
          if want_installed
          then res fail (package_absent name) not_installed
          else res pass (package_absent name) absent_as_required
      | err package_denied ↦ res unknown (host_api (codes "package.query")) not_granted
      | err (package_bad_input s) ↦ res error no_evidence (bad_input s)
      | err (package_transient s) ↦ res unknown no_evidence (provider_error s)
    ]

unfoldable pub status_text : ServiceStatus → Text
status_text running = codes "running"
status_text stopped = codes "stopped"
status_text service_failed = codes "failed"
status_text unknown_status = codes "unknown"

unfoldable pub eval_service : Rule → Text → Result ServiceError ServiceStatus → Finding
unfolding status_text text_eq
eval_service r name answer =
    let want = unwrap_or r.state (codes "running") in
    elim answer [
      | ok s ↦
          let got = status_text s in
          if text_eq got (codes "unknown")
          then res unknown (service name got) state_unknown
          else if text_eq got want
          then res pass (service name got) met
          else res fail (service name got) state_mismatch
      | err service_not_found ↦
          if text_eq want (codes "stopped") || text_eq want (codes "absent")
          then res pass (service name (codes "not-found")) absent_as_required
          else res fail (service name (codes "not-found")) no_service
      | err service_denied ↦ res unknown (host_api (codes "service.status")) not_granted
      | err (service_transient s) ↦ res unknown no_evidence (provider_error s)
    ]

unfoldable pub eval_file : Rule → Text → Bool → Finding
eval_file r path exists =
    let want_exists = unwrap_or r.exists true in
    if same_bool exists want_exists
    then res pass (sandbox_file path exists) met
    else res fail (sandbox_file path exists) (if want_exists then file_is_missing else file_exists)

-- A rule of a type that needs a field; `err` is the early `return` where it is missing.
abbrev pub with_field : Option Text → Text → (Text → Finding) → Result Finding Finding
with_field none what f = err (bad_rule what)
with_field (some x) what f = ok (f x)

unfoldable pub eval_type : Rule → Host → Text → Result Finding Finding
unfolding eval_os eval_package eval_service eval_file eval_config text_eq
eval_type r host ty =
    if text_eq ty (codes "os")
    then ok (eval_os r host.os)
    else if text_eq ty (codes "package")
    then with_field r.name (codes "rule missing 'name'") (λ n. eval_package r n (host.query n))
    else if text_eq ty (codes "service")
    then with_field r.name (codes "rule missing 'name'") (λ n. eval_service r n (host.status n))
    else if text_eq ty (codes "file")
    then with_field r.path (codes "rule missing 'path'") (λ p. eval_file r p (host.metadata_ok p))
    else if text_eq ty (codes "config")
    then ok (eval_config r host)
    else if is_empty ty
    then ok (bad_rule (codes "rule missing 'type'"))
    else ok (bad_rule (codes "unknown rule type"))

abbrev pub verdict : Rule → Text → Option Text → Finding → Verdict
verdict r ty severity f = record {
  id = unwrap_or r.id (codes "?");
  ty = ty;
  outcome = f.outcome;
  evidence = f.evidence;
  reason = f.reason;
  severity = severity;
}

-- The severity is added to what no early `return` gives.
unfoldable pub eval_rule : Host → Rule → Verdict
unfolding eval_type
eval_rule host r =
    let ty = unwrap_or r.ty [] in
    elim (eval_type r host ty) [ err f ↦ verdict r ty none f | ok f ↦ verdict r ty r.severity f ]
