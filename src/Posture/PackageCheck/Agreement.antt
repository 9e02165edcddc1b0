-- ===== src/Posture/PackageCheck/Agreement.antt =====
-- package-check and the package rules of compliance-scan, which hold the same test twice.
use pantheon_tools_catalog.Prelude.{
  ◌≡◌, ◌↔◌, refl, Bool, true, false, Option, none, some, unwrap_or, Result, ok, err, arith,
}
use pantheon_tools_catalog.Text.{Text}
use pantheon_tools_catalog.Compliance.Host.{
  PackageInfo, PackageError, package_not_found, package_denied, package_bad_input,
  package_transient,
}
use pantheon_tools_catalog.Compliance.Outcomes.{Rule, pass}
use pantheon_tools_catalog.Compliance.Rules.{eval_package, same_bool, at_least}
use pantheon_tools_catalog.Posture.PackageCheck.{Error, Output, conclude, judge, version_ok}

abbrev pub Passes : Result Error Output → Type 0
Passes (ok out) = out.pass ≡ true
Passes (err e) = ⊥

same_bool-true : (b : Bool) → same_bool b true ≡ b
same_bool-true true = refl
same_bool-true false = refl

at_least-version_ok :
    (min : Option Text) (version : Text) → at_least min version ≡ version_ok min version
unfolding version_ok
at_least-version_ok none version = refl
at_least-version_ok (some m) version = refl

-- For each answer of the host about a package and each rule that wants it installed, as a rule does
-- by default: package-check with the minimum version of the rule reports a pass exactly where
-- compliance-scan finds that the rule passes. In particular neither passes where the host denies or
-- fails to answer.
pub conclude-eval_package :
    (r : Rule) (name : Text) (answer : Result PackageError PackageInfo)
    → unwrap_or r.installed true ≡ true
    → Passes (conclude r.min_version name answer) ↔ ((eval_package r name answer).outcome ≡ pass)
unfolding conclude judge eval_package
conclude-eval_package r name (ok info) wanted =
    ground
      (arith, wanted, same_bool-true info.installed, at_least-version_ok r.min_version info.version)
conclude-eval_package r name (err package_not_found) wanted = ground (arith, wanted)
conclude-eval_package r name (err package_denied) wanted = (λ h. absurd h, λ h. ground (arith, h))
conclude-eval_package r name (err (package_bad_input s)) wanted =
    (λ h. absurd h, λ h. ground (arith, h))
conclude-eval_package r name (err (package_transient s)) wanted =
    (λ h. absurd h, λ h. ground (arith, h))
