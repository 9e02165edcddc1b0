-- ===== src/Compliance.antt =====
-- `default_baseline`, `evaluate` and `run` of tools/compliance-scan/src/main.rs.
pub mod Host
pub mod Sshd
pub mod Outcomes
pub mod Config
pub mod Rules
pub mod Rollup
use pantheon_tools_catalog.Prelude.{
  ℕ, Bool, true, false, ◌&&◌, Option, none, some, List, [], ◌∷◌, map, retain, length, is_empty,
  ◌==◌, if◌then◌else◌, unwrap_or, ok_or, ensure, Result, ok, err, ◌>>=◌, ◌>>◌,
}
use pantheon_tools_catalog.Text.{Text, codes, text_eq}
use pantheon_tools_catalog.Serde.{Serde, str_arg}
use pantheon_tools_catalog.Compliance.Host.{OsFacts, Imports, node}
use pantheon_tools_catalog.Compliance.Host as HostModule
use pantheon_tools_catalog.Compliance.Outcomes.{
  Rule, Verdict, Outcome, pass, fail, unknown, error, read_rule,
}
use pantheon_tools_catalog.Compliance.Rules.{eval_rule}

pub data Error : Type 0 where
  args_not_json args_not_object rules_empty rules_not_array : Error

abbrev pub baseline_rule : Text → Text → Text → Text → Text → Rule
baseline_rule id sshd directive default severity = record {
  id = some id;
  ty = some (codes "config");
  severity = some severity;
  kind_in = none;
  allowed = some (codes "no" ∷ []);
  expected = none;
  min_version = none;
  name = none;
  installed = none;
  state = none;
  path = some sshd;
  exists = none;
  directive = some directive;
  default = some default;
  missing_file = some (codes "pass");
  format = none;
}

unfoldable pub default_baseline : Option Text → List Rule
unfolding text_eq
default_baseline os_kind =
    let windows : Bool = elim os_kind [ none ↦ false | some k ↦ text_eq k (codes "windows") ] in
    let sshd : Text =
      if windows then codes "C:\\ProgramData\\ssh\\sshd_config" else codes "/etc/ssh/sshd_config" in
    baseline_rule (codes "ssh-root-login") sshd (codes "PermitRootLogin")
      (codes "prohibit-password") (codes "high")
    ∷ baseline_rule (codes "ssh-empty-passwords") sshd (codes "PermitEmptyPasswords") (codes "no")
        (codes "critical")
    ∷ []

pub data Source : Type 0 where
  default_source caller : Source

abbrev pub os_kind_of : Result (Unit {0}) OsFacts → Option Text
os_kind_of (ok f) = some f.kind
os_kind_of (err _) = none

module _ (j : Serde) (host : HostModule.Host) where
  unfoldable pub rules_of : j.Value → Result Error (List Rule × Source)
  unfolding default_baseline read_rule
  rules_of a =
      let built_in : List Rule × Source = (default_baseline (os_kind_of host.os), default_source) in
      elim (j.get a (codes "rules")) [
        | none ↦ ok built_in
        | some v ↦ if j.is_null v then ok built_in else elim (j.as_array v) [
          | none ↦ err rules_not_array
          | some r ↦ if is_empty r then err rules_empty else ok (map (read_rule j) r, caller)
        ]
      ]

abbrev pub is_outcome : Outcome → Outcome → Bool
is_outcome pass pass = true
is_outcome fail fail = true
is_outcome unknown unknown = true
is_outcome error error = true
is_outcome _ _ = false

-- the closure `count`
abbrev pub count : List Verdict → Outcome → ℕ
count results o = length (retain (λ (v : Verdict). is_outcome v.outcome o) results)

pub record Output : Type 0 where
  pub policy_id : Text
  pub rules_source : Source
  pub passed : Bool
  pub total : ℕ
  pub pass_count : ℕ
  pub fail_count : ℕ
  pub unknown_count : ℕ
  pub error_count : ℕ
  pub results : List Verdict

-- `evaluate` after the rules are known
unfoldable pub roll_up : HostModule.Host → Text → Source → List Rule → Output
unfolding eval_rule
roll_up host policy_id source rules =
    let results = map (eval_rule host) rules in
    let f = count results fail in
    let u = count results unknown in
    let e = count results error in
    record {
      policy_id = policy_id;
      rules_source = source;
      passed = f == 0 && u == 0 && e == 0;
      total = length results;
      pass_count = count results pass;
      fail_count = f;
      unknown_count = u;
      error_count = e;
      results = results;
    }

abbrev pub default_id : Source → Text
default_id caller = codes "adhoc"
default_id default_source = codes "synapse-baseline"

unfoldable pub evaluate : (j : Serde) → HostModule.Host → j.Value → Result Error Output
unfolding rules_of roll_up
evaluate j host a = do
  chosen ← rules_of j host a
  let rules = chosen.0
  let source = chosen.1
  ok (roll_up host (unwrap_or (str_arg j a "policy_id") (default_id source)) source rules)

unfoldable pub run : Serde → Imports → Option Text → Result Error Output
unfolding evaluate node
run j h raw = do
  a ← ok_or (j.from_str (unwrap_or raw (codes "{}"))) args_not_json
  ensure (j.is_object a) args_not_object
  evaluate j (node h) a
