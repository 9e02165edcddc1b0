-- ===== src/Compliance/Config/Allowed.antt =====
-- When a config rule of compliance-scan passes, said by the fields of the rule.
use pantheon_tools_catalog.Prelude.{
  ◌≡◌, refl, ◌↔◌, ◌⊎◌, true, false, Option, none, some, List, [], ◌∷◌, map, any, ◌||◌, ap, ◌∙◌,
  Bool, Option-cases, arith, is_empty, unwrap_or, Result, ok, err, Bool-cases, inl, inr,
}
use pantheon_tools_catalog.Text.{Text, codes, text_eq, to_lower, eq_ignore_case}
use pantheon_tools_catalog.Text.Order.{text_eq_iff}
use pantheon_tools_catalog.Compliance.Host.{Host, FsErr, denied, missing, failed}
use pantheon_tools_catalog.Compliance.Sshd.{Lookup, file_missing, absent, found, sshd_effective}
use pantheon_tools_catalog.Compliance.Outcomes.{Rule, pass, is_listed}
use pantheon_tools_catalog.Compliance.Config.{
  allowed_values, is_sshd, eval_config, check_config, Checked, conclude, judge,
}

-- The values that the rule allows.
abbrev pub choices : Rule → List Text
choices r = elim r.allowed [ some a ↦ a | none ↦ elim r.expected [ some e ↦ e ∷ [] | none ↦ [] ] ]

-- One of them is the value, in any case of letters.
abbrev pub permits : Rule → Text → Bool
permits r value = any (eq_ignore_case value) (choices r)

abbrev pub KnownPolicy : Option Text → Type 0
KnownPolicy none = Unit
KnownPolicy (some p) = (p ≡ codes "pass") ⊎ ((p ≡ codes "fail") ⊎ (p ≡ codes "unknown"))

abbrev pub KnownFormat : Option Text → Type 0
KnownFormat none = Unit
KnownFormat (some f) = f ≡ codes "sshd"

-- A rule without a mistake that `eval_config` names.
abbrev pub WellFormed : Rule → Text → Text → Type 0
WellFormed r path directive =
    (r.path ≡ some path)
    × (r.directive ≡ some directive)
    × (is_empty (choices r) ≡ false)
    × KnownPolicy r.missing_file
    × KnownFormat r.format

-- What must hold for a config rule to pass, by what was found.
abbrev pub Passes : Rule → Result FsErr Lookup → Type 0
Passes r (ok (found s)) = permits r s.value ≡ true
Passes r (ok absent) = (d : Text) × (r.default ≡ some d) × (permits r d ≡ true)
Passes r (ok file_missing) = r.missing_file ≡ some (codes "pass")
Passes r (err e) = ⊥

is_listed-lower :
    (x : Text) (values : List Text)
    → is_listed (to_lower x) (map to_lower values) ≡ any (eq_ignore_case x) values
unfolding eq_ignore_case
is_listed-lower x [] = refl
is_listed-lower x (y ∷ ys) = ap (λ b. text_eq (to_lower x) (to_lower y) || b) (is_listed-lower x ys)

allowed_values-choices :
    (r : Rule) → is_empty (choices r) ≡ false → allowed_values r ≡ some (map to_lower (choices r))
unfolding allowed_values
allowed_values-choices r h = elim (Option-cases r.allowed) [
  | inr (a, q) ↦ rw (allowed_values, q) refl
  | inl n ↦ elim (Option-cases r.expected) [
    | inr (e, q) ↦ rw (allowed_values, n, q) refl
    | inl m ↦ absurd (ground (arith, rw (n, m) at h))
  ]
]

-- What the guards of the code make of a rule that is well formed.
abbrev checked : Rule → Text → Text → Checked
checked r path directive = record {
  path = path;
  directive = directive;
  allowed = map to_lower (choices r);
  missing_file = unwrap_or r.missing_file (codes "unknown");
}

is_empty-lower : (values : List Text) → is_empty (map to_lower values) ≡ is_empty values
is_empty-lower [] = refl
is_empty-lower (x ∷ xs) = refl

abbrev is_policy : Text → Bool
is_policy p = text_eq p (codes "pass") || text_eq p (codes "fail") || text_eq p (codes "unknown")

KnownPolicy-is_policy :
    (o : Option Text) → KnownPolicy o → is_policy (unwrap_or o (codes "unknown")) ≡ true
unfolding text_eq
KnownPolicy-is_policy none h = refl
KnownPolicy-is_policy (some p) (inl e) = rw e refl
KnownPolicy-is_policy (some p) (inr (inl e)) = rw e refl
KnownPolicy-is_policy (some p) (inr (inr e)) = rw e refl

KnownFormat-is_sshd : (o : Option Text) → KnownFormat o → is_sshd o ≡ true
unfolding text_eq
KnownFormat-is_sshd none h = refl
KnownFormat-is_sshd (some f) h = rw h refl

check_config-checked :
    (r : Rule) (path directive : Text)
    → WellFormed r path directive
    → check_config r ≡ ok (checked r path directive)
unfolding check_config
check_config-checked r path directive (p, d, some_value, policy, format) =
    rw
      (
        check_config,
        p,
        d,
        allowed_values-choices r some_value,
        is_empty-lower (choices r) ∙ some_value,
        KnownPolicy-is_policy r.missing_file policy,
        KnownFormat-is_sshd r.format format,
      )
      refl

judge-pass :
    (path directive : Text) (allowed : List Text) (value source : Text)
    → ((judge path directive allowed value source).outcome ≡ pass)
      ↔ (is_listed (to_lower value) allowed ≡ true)
unfolding judge
judge-pass path directive allowed value source =
    elim (Bool-cases (is_listed (to_lower value) allowed)) [
      | inl yes_ ↦ rw (judge, yes_) (λ _. refl, λ _. refl)
      | inr no_ ↦ rw (judge, no_) (λ h. absurd (ground arith), λ h. absurd (ground arith))
    ]

judge-permits :
    (r : Rule) (path directive value source : Text)
    → ((judge path directive (map to_lower (choices r)) value source).outcome ≡ pass)
      ↔ (permits r value ≡ true)
judge-permits r path directive value source =
    rw⁻¹ (is_listed-lower value (choices r))
      (judge-pass path directive (map to_lower (choices r)) value source)

missing-pass :
    (o : Option Text)
    → (text_eq (unwrap_or o (codes "unknown")) (codes "pass") ≡ true) ↔ (o ≡ some (codes "pass"))
unfolding text_eq
missing-pass none = (λ h. absurd (ground (arith, h)), λ h. absurd (ground (arith, h)))
missing-pass (some p) = ground (arith, text_eq_iff p (codes "pass"))

module _ (r : Rule) (path directive : Text) where
  conclude-absent :
      (default : Option Text)
      → ((conclude path directive
            (map to_lower (choices r))
            default
            (unwrap_or r.missing_file (codes "unknown"))
            (ok absent)).outcome
          ≡ pass)
        ↔ ((d : Text) × (default ≡ some d) × (permits r d ≡ true))
  unfolding conclude
  conclude-absent none = (λ h. absurd (ground arith), λ (d, e, l). absurd (ground arith))
  conclude-absent (some d) =
      let (to, from) = judge-permits r path directive d (codes "default (not set in the file)") in
      (λ h. (d, refl, to h), λ (d', e, l). from (let same : d ≡ d' = ground arith in rw same l))

  conclude-Passes :
      (a : Result FsErr Lookup)
      → ((conclude path directive
            (map to_lower (choices r))
            r.default
            (unwrap_or r.missing_file (codes "unknown"))
            a).outcome
          ≡ pass)
        ↔ Passes r a
  unfolding conclude
  conclude-Passes (ok (found s)) = judge-permits r path directive s.value s.file
  conclude-Passes (ok absent) = conclude-absent r.default
  conclude-Passes (ok file_missing) = ground (arith, missing-pass r.missing_file)
  conclude-Passes (err (denied m)) = (λ h. absurd (ground arith), λ h. absurd h)
  conclude-Passes (err missing) = (λ h. absurd (ground arith), λ h. absurd h)
  conclude-Passes (err (failed m)) = (λ h. absurd (ground arith), λ h. absurd h)

-- A config rule that has a path, a directive, an allowed value or more and no unknown policy or
-- format passes exactly when the effective value is one of the allowed ones, without regard to case;
-- or the directive is not set and the default of the rule is one of them; or there is no such file
-- and the rule says that this is a pass.
pub eval_config-Passes :
    (r : Rule) (host : Host) (path directive : Text)
    → WellFormed r path directive
    → ((eval_config r host).outcome ≡ pass) ↔ Passes r (sshd_effective host path directive)
unfolding eval_config
eval_config-Passes r host path directive h =
    rw (eval_config, check_config-checked r path directive h)
      (conclude-Passes r path directive (sshd_effective host path directive))
