-- ===== src/Remediate/Package/Effects.antt =====
-- What a run of package-remediate asks the host to change, and what it answers.
use pantheon_tools_catalog.Prelude.{
  ◌≡◌, not, refl, sym, subst, ◌&&◌, ◌⊎◌, ap, ◌∙◌, Bool, true, false, Option, List, [], ◌∷◌, ◌++◌,
  append-nil, Result, ok, err, if◌then◌else◌, Bool-cases, arith, if-induction, inl, inr,
}
use pantheon_tools_catalog.Text.{codes, text_eq}
use pantheon_tools_catalog.Text.Order.{text_eq→≡}
use pantheon_tools_catalog.Remediate.Exec.{continue-induction, Session, Exec, pure, ◌>>>=◌}
use pantheon_tools_catalog.Remediate.Package.{
  PackageInfo, Packages, Call, install, uninstall, Error, Request, Output, read, write, make_plan,
  carry_out, remediate, verify, is_present, is_absent, on_denylist, never_remove, version_moved,
}

-- The writes of an output: its plan when it was applied, else none.
abbrev pub written : Output → List Call
written out = if out.applied then out.plan else []

module _ {S : Type 0} (host : Packages S) (r : Request) where
  -- the end of a session that began with the writes `old`
  abbrev pub Honest : List Call → Result Error Output × Session S Call → Type 0
  Honest old (ok out, t) =
      (t.calls ≡ old ++ written out)
      × ((out.applied && not r.apply) ≡ false)
      × (out.verified ≡ verify r out.after)
  Honest old (err e, t) = (t.calls ≡ old) ⊎ (r.apply ≡ true)

  applies : not r.apply ≡ false → r.apply ≡ true
  applies wet = ground arith

  planned : Call
  planned = if is_present r then install r.name r.version else uninstall r.name

  make_plan-planned :
      (before : Option PackageInfo) (plan : List Call)
      → make_plan r before ≡ ok (plan, false)
      → plan ≡ planned ∷ []
  unfolding make_plan planned
  make_plan-planned before plan e = ground arith

  make_plan-verify :
      (before : Option PackageInfo) (plan : List Call) (already : Bool)
      → make_plan r before ≡ ok (plan, already)
      → verify r before ≡ already
  unfolding make_plan verify
  make_plan-verify before plan already e = ground arith

  -- Ends as the write does: the call is noted.
  write-planned : (s : Session S Call) → (write host r s).1.calls ≡ s.calls ++ planned ∷ []
  unfolding write planned
  write-planned s = elim (Bool-cases (is_present r)) [ inl p ↦ rw p refl | inr p ↦ rw p refl ]

  read-calls : (s : Session S Call) → (read host r.name s).1.calls ≡ s.calls
  unfolding read
  read-calls s = refl

  carry_out-Honest :
      (before : Option PackageInfo) (s : Session S Call) (plan : List Call) (already : Bool)
      → make_plan r before ≡ ok (plan, already)
      → Honest s.calls (carry_out host r before plan already s)
  unfolding carry_out
  carry_out-Honest before s plan true e =
      (sym (append-nil s.calls), refl, sym (make_plan-verify before plan true e))
  carry_out-Honest before s plan false e =
      if-induction {A = Exec S Call Error Output} (λ m. Honest s.calls (m s)) (not r.apply) _ _
        (λ _. (sym (append-nil s.calls), refl, sym (make_plan-verify before plan false e)))
        (λ wet.
          continue-induction (Honest s.calls) (write host r s).0 (write host r s).1
            (λ _. read host r.name >>>= λ after. pure record {
              before = before;
              after = after;
              plan = plan;
              changed = version_moved before after;
              applied = true;
              verified = verify r after;
              dry_run = false;
            })
            (λ _ _. inr (applies wet))
            (λ _ _.
              continue-induction (Honest s.calls) (read host r.name (write host r s).1).0
                (read host r.name (write host r s).1).1
                (λ after. pure record {
                  before = before;
                  after = after;
                  plan = plan;
                  changed = version_moved before after;
                  applied = true;
                  verified = verify r after;
                  dry_run = false;
                })
                (λ _ _. inr (applies wet))
                (λ after _. (
                  read-calls (write host r s).1
                      ∙ write-planned s
                      ∙ ap (λ p. s.calls ++ p) (sym (make_plan-planned before plan e)),
                  wet,
                  refl,
                ))))

  -- A run of package-remediate that answers has asked the host for the writes of its plan if it says
  -- `applied` and for none if not; it says `applied` only where `apply` was given; and `verified` is
  -- the test of the desired state on the `after` of the answer. A run that ends in an error has asked
  -- for no write, or `apply` was given.
  pub remediate-Honest : (s : Session S Call) → Honest s.calls (remediate host r s)
  unfolding remediate read
  remediate-Honest s =
      continue-induction (Honest s.calls) (read host r.name s).0 (read host r.name s).1 _
        (λ _ _. inl refl)
        (λ before _.
          continue-induction (Honest s.calls) (make_plan r before) (read host r.name s).1 _
            (λ _ _. inl refl)
            (λ (plan, already) e. carry_out-Honest before (read host r.name s).1 plan already e))

  no_writes :
      (old : List Call) (e : Result Error Output × Session S Call)
      → r.apply ≡ false
      → Honest old e
      → e.1.calls ≡ old
  no_writes old (ok out, t) dry (c, a, v) =
      let quiet : out.applied ≡ false = ground arith in
      c ∙ ap (λ b. old ++ (if b then out.plan else [])) quiet ∙ append-nil old
  no_writes old (err e, t) dry (inl c) = c
  no_writes old (err e, t) dry (inr a) = absurd (ground arith)

  -- Without `apply` a run of package-remediate asks the host for no write, however it ends.
  pub remediate-dry_run :
      (s : Session S Call) → r.apply ≡ false → (remediate host r s).1.calls ≡ s.calls
  remediate-dry_run s dry = no_writes s.calls (remediate host r s) dry (remediate-Honest s)

  abbrev pub Refused : List Call → Result Error Output × Session S Call → Type 0
  Refused old (ok out, t) = ⊥
  Refused old (err e, t) = t.calls ≡ old

  is_absent-present : is_absent r ≡ true → is_present r ≡ false
  unfolding is_absent is_present text_eq
  is_absent-present a =
      subst (λ d. text_eq d (codes "present") ≡ false)
        (sym (text_eq→≡ r.desired (codes "absent") a)) refl

  make_plan-refused :
      (before : Option PackageInfo)
      → is_present r ≡ false
      → is_absent r ≡ true
      → on_denylist r.name r.extra_never ≡ true
      → make_plan r before ≡ err (never_remove r.name)
  unfolding make_plan
  make_plan-refused before p a d = ground arith

  -- A removal of a package on the denylist is refused, with no write, whatever `apply` says: a run
  -- for it ends in an error.
  pub remediate-never_remove :
      (s : Session S Call)
      → is_absent r ≡ true
      → on_denylist r.name r.extra_never ≡ true
      → Refused s.calls (remediate host r s)
  unfolding remediate read
  remediate-never_remove s a d =
      continue-induction (Refused s.calls) (read host r.name s).0 (read host r.name s).1 _
        (λ _ _. refl)
        (λ before _.
          continue-induction (Refused s.calls) (make_plan r before) (read host r.name s).1 _
            (λ _ _. refl)
            (λ x e. absurd (ground (arith, make_plan-refused before (is_absent-present a) a d, e))))
