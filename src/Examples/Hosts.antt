-- ===== src/Examples/Hosts.antt =====
-- The theorems on remediation at a concrete host.
use pantheon_tools_catalog.Prelude.{◌≡◌, refl, Bool, true, false, Option, none, some, [], ◌∷◌, ok}
use pantheon_tools_catalog.Text.{Text, codes}
use pantheon_tools_catalog.Remediate.Exec.{Session}
use pantheon_tools_catalog.Remediate.VersionGe.{ver_ge}
use pantheon_tools_catalog.Remediate.Package.{
  PackageInfo, Packages, Call, install, Request, Output, remediate, is_absent, on_denylist,
  carry_out, make_plan, read, write, verify, version_moved,
}
use pantheon_tools_catalog.Remediate.Package.Effects.{
  Honest, Refused, remediate-Honest, remediate-never_remove,
}
use pantheon_tools_catalog.Remediate.Package.Repeat.{Quiet, remediate-idempotent}

-- A host that knows of one package: its version, if it is installed.
abbrev info_of : Option Text → PackageInfo
info_of none = record { version = []; source = codes "apt"; installed = false }
info_of (some v) = record { version = v; source = codes "apt"; installed = true }

abbrev host : Packages (Option Text)
host = record {
  query = λ _ s. (ok (info_of s), s);
  install_package = λ _ v s. (ok tt, elim v [ none ↦ some (codes "2.0") | some w ↦ some w ]);
  uninstall_package = λ _ s. (ok tt, none);
}

abbrev request : Text → Text → Bool → Request
request name desired apply = record {
  name = name;
  desired = desired;
  apply = apply;
  version = some (codes "1.10");
  min_version = some (codes "1.9");
  extra_never = [];
}

abbrev started : Option Text → Session (Option Text) Call
started v = record { host = v; calls = [] }

abbrev curl : Bool → Request
curl apply = request (codes "curl") (codes "present") apply

remediate-Honest_example :
    Honest host (curl true) [] (remediate host (curl true) (started (some (codes "1.8"))))
remediate-Honest_example = remediate-Honest host (curl true) (started (some (codes "1.8")))

abbrev no_ssh : Request
no_ssh = request (codes "OpenSSH") (codes "absent") true

no_ssh-is_absent : is_absent no_ssh ≡ true
unfolding is_absent
no_ssh-is_absent = refl

no_ssh-on_denylist : on_denylist no_ssh.name no_ssh.extra_never ≡ true
unfolding on_denylist
no_ssh-on_denylist = refl

remediate-never_remove_example :
    Refused host no_ssh [] (remediate host no_ssh (started (some (codes "9.0"))))
remediate-never_remove_example =
    remediate-never_remove host no_ssh (started (some (codes "9.0"))) no_ssh-is_absent
      no_ssh-on_denylist

abbrev upgraded : Session (Option Text) Call
upgraded = record {
  host = some (codes "1.10");
  calls = install (codes "curl") (some (codes "1.10")) ∷ [];
}

abbrev answer : Output
answer = record {
  before = some (info_of (some (codes "1.8")));
  after = some (info_of (some (codes "1.10")));
  plan = install (codes "curl") (some (codes "1.10")) ∷ [];
  changed = true;
  applied = true;
  verified = true;
  dry_run = false;
}

first_run : remediate host (curl true) (started (some (codes "1.8"))) ≡ (ok answer, upgraded)
unfolding remediate carry_out make_plan read write verify version_moved ver_ge
first_run = refl

remediate-idempotent_example : Quiet host (curl true) upgraded (remediate host (curl true) upgraded)
remediate-idempotent_example =
    remediate-idempotent host (curl true) (λ _ _. refl) (started (some (codes "1.8"))) upgraded
      answer first_run refl refl

nine-below-ten : ver_ge (codes "1.9") (codes "1.10") ≡ false
unfolding ver_ge
nine-below-ten = refl

-- No order: each of 9, 10 and 1a is above the next, in a circle.
ver_ge_cycle :
    (ver_ge (codes "10") (codes "9") ≡ true)
    × (ver_ge (codes "1a") (codes "10") ≡ true)
    × (ver_ge (codes "9") (codes "1a") ≡ true)
    × (ver_ge (codes "9") (codes "10") ≡ false)
unfolding ver_ge
ver_ge_cycle = (refl, refl, refl, refl)
