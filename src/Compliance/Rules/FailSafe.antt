-- ===== src/Compliance/Rules/FailSafe.antt =====
-- The outcomes of compliance-scan where the host does not answer, and those of config rules.
use pantheon_tools_catalog.Prelude.{
  ◌≡◌, ◌≢◌, refl, ◌⊎◌, false, Option, none, some, [], arith, is_empty, unwrap_or, Result, ok, err,
  inl, inr, if-induction,
}
use pantheon_tools_catalog.Text.{Text, codes, text_eq}
use pantheon_tools_catalog.Text.Order.{text_eq_iff}
use pantheon_tools_catalog.Compliance.Host.{
  Host, OsFacts, FsErr, denied, missing, failed, PackageError, package_not_found, package_denied,
  package_bad_input, package_transient, PackageInfo, ServiceStatus, ServiceError, service_not_found,
  service_denied, service_transient,
}
use pantheon_tools_catalog.Compliance.Sshd.{sshd_effective}
use pantheon_tools_catalog.Compliance.Outcomes.{
  Rule, Outcome, unknown, error, Finding, Verdict, bad_rule,
}
use pantheon_tools_catalog.Compliance.Config.{eval_config, check_config, Checked, conclude}
use pantheon_tools_catalog.Compliance.Rules.{
  eval_os, eval_package, eval_service, with_field, eval_type, eval_rule, verdict,
}

-- No answer to a question: neither a value nor the news that there is no such thing.
abbrev pub NoPackage : Result PackageError PackageInfo → Type 0
NoPackage (ok _) = ⊥
NoPackage (err package_not_found) = ⊥
NoPackage (err _) = Unit

abbrev pub NoService : Result ServiceError ServiceStatus → Type 0
NoService (ok _) = ⊥
NoService (err service_not_found) = ⊥
NoService (err _) = Unit

abbrev pub NoFile : Result FsErr Text → Type 0
NoFile (ok _) = ⊥
NoFile (err missing) = ⊥
NoFile (err _) = Unit

-- A host that answers nothing: each interface is denied or fails.
pub record IsSilent (host : Host) : Type 0 where
  pub no_os : host.os ≡ err tt
  pub no_package : (n : Text) → NoPackage (host.query n)
  pub no_service : (n : Text) → NoService (host.status n)
  pub no_file : (p : Text) → NoFile (host.read p)

-- Nothing was found out.
abbrev pub Undecided : Outcome → Type 0
Undecided o = (o ≡ unknown) ⊎ (o ≡ error)

package-Undecided :
    (r : Rule) (n : Text) (a : Result PackageError PackageInfo)
    → NoPackage a
    → Undecided (eval_package r n a).outcome
unfolding eval_package
package-Undecided r n (ok i) h = absurd h
package-Undecided r n (err package_not_found) h = absurd h
package-Undecided r n (err package_denied) h = inl refl
package-Undecided r n (err (package_bad_input s)) h = inr refl
package-Undecided r n (err (package_transient s)) h = inl refl

service-Undecided :
    (r : Rule) (n : Text) (a : Result ServiceError ServiceStatus)
    → NoService a
    → Undecided (eval_service r n a).outcome
unfolding eval_service
service-Undecided r n (ok s) h = absurd h
service-Undecided r n (err service_not_found) h = absurd h
service-Undecided r n (err service_denied) h = inl refl
service-Undecided r n (err (service_transient s)) h = inl refl

config-Undecided : (r : Rule) (host : Host) → IsSilent host → Undecided (eval_config r host).outcome
unfolding eval_config
config-Undecided r host silent = go (check_config r)
  where
    unread :
        (c : Checked) (a : Result FsErr Text)
        → host.read c.path ≡ a
        → NoFile a
        → Undecided
            (conclude c.path c.directive c.allowed r.default c.missing_file
              (sshd_effective host c.path c.directive)).outcome
    unread c (ok t) e h = absurd h
    unread c (err missing) e h = absurd h
    unread c (err (denied m)) e h = rw (sshd_effective, e) (inl refl)
    unread c (err (failed m)) e h = rw (sshd_effective, e) (inl refl)

    go :
        (k : Result Text Checked)
        → Undecided
            (elim k as (λ _. Finding) [
              | err what ↦ bad_rule what
              | ok c ↦
                  conclude c.path c.directive c.allowed r.default c.missing_file
                    (sshd_effective host c.path c.directive)
            ]).outcome
    go (err what) = inr refl
    go (ok c) = unread c (host.read c.path) refl (silent.no_file c.path)

-- What holds of a result, returned early or not.
abbrev Both : (Finding → Type 0) → Result Finding Finding → Type 0
Both P (ok f) = P f
Both P (err f) = P f

abbrev IsUndecided : Finding → Type 0
IsUndecided f = Undecided f.outcome

with_field-Undecided :
    (o : Option Text) (what : Text) (f : Text → Finding)
    → ((x : Text) → IsUndecided (f x))
    → Both IsUndecided (with_field o what f)
with_field-Undecided none what f h = inr refl
with_field-Undecided (some x) what f h = h x

os-Undecided : (r : Rule) (a : Result (Unit {0}) OsFacts) → a ≡ err tt → IsUndecided (eval_os r a)
unfolding eval_os
os-Undecided r a e = rw e (inl refl)

type-Undecided :
    (r : Rule) (host : Host) (ty : Text)
    → IsSilent host
    → text_eq ty (codes "file") ≡ false
    → Both IsUndecided (eval_type r host ty)
unfolding eval_type
type-Undecided r host ty s file =
    let B = Both IsUndecided in
    if-induction B (text_eq ty (codes "os")) _ _ (λ _. os-Undecided r host.os s.no_os)
      (λ _.
        if-induction B (text_eq ty (codes "package")) _ _
          (λ _. with_field-Undecided r.name _ _ (λ n. package-Undecided r n _ (s.no_package n)))
          (λ _.
            if-induction B (text_eq ty (codes "service")) _ _
              (λ _. with_field-Undecided r.name _ _ (λ n. service-Undecided r n _ (s.no_service n)))
              (λ _.
                if-induction B (text_eq ty (codes "file")) _ _ (λ is_file. absurd (ground arith))
                  (λ _.
                    if-induction B (text_eq ty (codes "config")) _ _
                      (λ _. config-Undecided r host s)
                      (λ _. if-induction B (is_empty ty) _ _ (λ _. inr refl) (λ _. inr refl))))))

-- Against a host whose interfaces all deny or fail, no rule but one on the sandbox's own files is
-- decided: its outcome is unknown, or an error of the rule, and never a pass.
pub eval_rule-Undecided :
    (host : Host) (r : Rule)
    → IsSilent host
    → unwrap_or r.ty [] ≢ codes "file"
    → Undecided (eval_rule host r).outcome
unfolding eval_rule
eval_rule-Undecided host r s other = go (eval_type r host ty) (type-Undecided r host ty s file)
  where
    ty : Text
    ty = unwrap_or r.ty []

    file : text_eq ty (codes "file") ≡ false
    file = ground (arith, text_eq_iff ty (codes "file"))

    go :
        (x : Result Finding Finding)
        → Both IsUndecided x
        → Undecided
            (elim x as (λ _. Verdict) [
              | err f ↦ verdict r ty none f
              | ok f ↦ verdict r ty r.severity f
            ]).outcome
    go (ok f) h = h
    go (err f) h = h
