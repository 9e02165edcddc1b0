-- ===== src/Examples/Policies.antt =====
-- The theorems on compliance-scan at concrete inputs.
use pantheon_tools_catalog.Prelude.{
  inl, ◌+◌, ◌≡◌, ◌≢◌, ◌↔◌, refl, true, [], ◌∷◌, map, arith, if◌then◌else◌, ok, err, ◌>>=◌,
}
use pantheon_tools_catalog.Text.{Text, codes, text_eq, to_lower}
use pantheon_tools_catalog.Compliance.{caller, baseline_rule, roll_up}
use pantheon_tools_catalog.Compliance.Host.{
  Host, denied, missing, package_denied, service_denied, running,
}
use pantheon_tools_catalog.Compliance.Sshd.{sshd_effective, parent_dir, include_max_depth}
use pantheon_tools_catalog.Compliance.Sshd.FirstWins.{
  search, settings, lookup_of, sshd_effective-search,
}
use pantheon_tools_catalog.Compliance.Outcomes.{Rule, pass}
use pantheon_tools_catalog.Compliance.Config.{eval_config}
use pantheon_tools_catalog.Compliance.Rules.{eval_rule}
use pantheon_tools_catalog.Compliance.Rules.FailSafe.{IsSilent, Undecided, eval_rule-Undecided}
use pantheon_tools_catalog.Compliance.Config.Allowed.{WellFormed, Passes, eval_config-Passes}
use pantheon_tools_catalog.Compliance.Rollup.{AllPass, roll_up-AllPass}

abbrev config : Text
config = codes "/etc/ssh/sshd_config"

abbrev config_text : Text
config_text = codes "Include extra.conf\nPermitRootLogin yes\n"

abbrev host : Host
host = record {
  os = ok (record { kind = codes "linux-debian"; version = codes "12"; arch = codes "x86_64" });
  read = λ p.
      if text_eq p config
      then ok config_text
      else if text_eq p (codes "/etc/ssh/extra.conf")
      then ok (codes "permitrootlogin=no\n")
      else err missing;
  list = λ _. err missing;
  query =
      λ n. ok (record { name = n; installed = true; version = codes "1.2"; source = codes "apt" });
  status = λ _. ok running;
  metadata_ok = λ _. true;
}

abbrev silent_host : Host
silent_host = record {
  os = err tt;
  read = λ _. err (denied (codes "no root"));
  list = λ _. err (denied (codes "no root"));
  query = λ _. err package_denied;
  status = λ _. err service_denied;
  metadata_ok = λ _. true;
}

silent_host-IsSilent : IsSilent silent_host
silent_host-IsSilent = record {
  no_os = refl;
  no_package = λ _. tt;
  no_service = λ _. tt;
  no_file = λ _. tt;
}

abbrev root_login : Rule
root_login =
    baseline_rule (codes "ssh-root-login") config (codes "PermitRootLogin")
      (codes "prohibit-password") (codes "high")

roll_up-AllPass_example :
    (((roll_up host (codes "adhoc") caller (root_login ∷ [])).passed ≡ true)
      ↔ AllPass (map (eval_rule host) (root_login ∷ [])))
    × ((roll_up host (codes "adhoc") caller (root_login ∷ [])).total ≡ 1)
    × ((((roll_up host (codes "adhoc") caller (root_login ∷ [])).pass_count
              + (roll_up host (codes "adhoc") caller (root_login ∷ [])).fail_count)
            + (roll_up host (codes "adhoc") caller (root_login ∷ [])).unknown_count)
          + (roll_up host (codes "adhoc") caller (root_login ∷ [])).error_count
        ≡ 1)
roll_up-AllPass_example = roll_up-AllPass host (codes "adhoc") caller (root_login ∷ [])

not_file : codes "config" ≢ codes "file"
not_file h = ground arith

eval_rule-Undecided_example : Undecided (eval_rule silent_host root_login).outcome
eval_rule-Undecided_example =
    eval_rule-Undecided silent_host root_login silent_host-IsSilent not_file

root_login-WellFormed : WellFormed root_login config (codes "PermitRootLogin")
root_login-WellFormed = (refl, refl, refl, inl refl, tt)

eval_config-Passes_example :
    ((eval_config root_login host).outcome ≡ pass)
    ↔ Passes root_login (sshd_effective host config (codes "PermitRootLogin"))
eval_config-Passes_example =
    eval_config-Passes root_login host config (codes "PermitRootLogin") root_login-WellFormed

config-read : host.read config ≡ ok config_text
unfolding text_eq
config-read = refl

sshd_effective-search_example : sshd_effective host config (codes "PermitRootLogin") ≡ (
    search
      (to_lower (codes "PermitRootLogin"))
      (settings host (parent_dir config) include_max_depth config_text config)
    >>= λ hit. ok (lookup_of hit))
sshd_effective-search_example =
    sshd_effective-search host config (codes "PermitRootLogin") config_text config-read

-- The included file comes first.
baseline_passes : (roll_up host (codes "adhoc") caller (root_login ∷ [])).passed ≡ true
unfolding roll_up
baseline_passes = refl
