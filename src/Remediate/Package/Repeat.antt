-- ===== src/Remediate/Package/Repeat.antt =====
-- A second run of package-remediate on the host that an applied run has left.
use pantheon_tools_catalog.Prelude.{
  ◌≡◌, not, refl, sym, subst, ap, ◌∙◌, Bool, true, false, Option, List, [], Result, ok, err, arith,
  if-induction,
}
use pantheon_tools_catalog.Text.{Text}
use pantheon_tools_catalog.Remediate.Exec.{
  continue-induction, Session, Exec, continue, pure, ◌>>>=◌,
}
use pantheon_tools_catalog.Remediate.Package.{
  PackageInfo, Packages, Call, Error, Request, Output, read, write, read_result, make_plan,
  carry_out, remediate, verify, version_moved,
}

module _ {S C E A B : Type 0} (P : Result E B × Session S C → Type 0) where
  continue-ok :
      (r : Result E A) (a : A) (s : Session S C) (f : A → Session S C → Result E B × Session S C)
      → r ≡ ok a
      → P (f a s)
      → P (continue r s f)
  continue-ok r a s f e p = subst (λ x. P (continue x s f)) (sym e) p

module _ {S : Type 0} (host : Packages S) (r : Request) where
  open host use {query}

  -- An answer by which the first run has verified the desired state, and a second run that starts
  -- from the host as it was left: no write, no change, `verified` again.
  abbrev pub Quiet : Session S Call → Result Error Output × Session S Call → Type 0
  Quiet old (ok out, t) =
      (t.calls ≡ old.calls) × (out.applied ≡ false) × (out.changed ≡ false) × (out.verified ≡ true)
  Quiet old (err e, t) = ⊥

  abbrev pub Repeats : Result Error Output × Session S Call → Type 0
  Repeats (ok out, t) = out.applied ≡ true → out.verified ≡ true → Quiet t (remediate host r t)
  Repeats (err e, t) = Unit

  -- A second query answers as the first.
  abbrev pub StableQuery : Type 0
  StableQuery = (name : Text) (s : S) → query name (query name s).1 ≡ query name s

  make_plan-verified :
      (before after : Option PackageInfo) (plan : List Call)
      → make_plan r before ≡ ok (plan, false)
      → verify r after ≡ true
      → make_plan r after ≡ ok ([], true)
  unfolding make_plan verify
  make_plan-verified before after plan e v = ground arith

  remediate-Quiet :
      (t : Session S Call) (after : Option PackageInfo)
      → (read host r.name t).0 ≡ ok after
      → make_plan r after ≡ ok ([], true)
      → Quiet t (remediate host r t)
  unfolding remediate carry_out read
  remediate-Quiet t after e p =
      continue-ok (Quiet t) (read host r.name t).0 after (read host r.name t).1 _ e (
        continue-ok (Quiet t) (make_plan r after) ([], true) (read host r.name t).1 _ p
          (refl, refl, refl, refl))

  -- The read that ended a session, made again.
  read-again :
      StableQuery
      → (t : Session S Call) (after : Option PackageInfo) → (read host r.name t).0 ≡ ok after
      → (read host r.name (read host r.name t).1).0 ≡ ok after
  unfolding read
  read-again stable t after e = ap (λ q. read_result q.0) (stable r.name t.host) ∙ e

  carry_out-Repeats :
      StableQuery
      → (before : Option PackageInfo) (s : Session S Call) (plan : List Call) (already : Bool)
      → make_plan r before ≡ ok (plan, already)
      → Repeats (carry_out host r before plan already s)
  unfolding carry_out
  carry_out-Repeats stable before s plan true e = λ h _. absurd (ground (arith, h))
  carry_out-Repeats stable before s plan false e =
      if-induction {A = Exec S Call Error Output} (λ m. Repeats (m s)) (not r.apply) _ _
        (λ _ h _. absurd (ground (arith, h)))
        (λ _.
          continue-induction Repeats (write host r s).0 (write host r s).1
            (λ _. read host r.name >>>= λ after. pure record {
              before = before;
              after = after;
              plan = plan;
              changed = version_moved before after;
              applied = true;
              verified = verify r after;
              dry_run = false;
            })
            (λ _ _. tt)
            (λ _ _.
              continue-induction Repeats (read host r.name (write host r s).1).0
                (read host r.name (write host r s).1).1
                (λ after. pure record {
                  before = before;
                  after = after;
                  plan = plan;
                  changed = version_moved before after;
                  applied = true;
                  verified = verify r after;
                  dry_run = false;
                })
                (λ _ _. tt)
                (λ after read_after _ v.
                  remediate-Quiet (read host r.name (write host r s).1).1 after
                    (read-again stable (write host r s).1 after read_after)
                    (make_plan-verified before after plan e v))))

  remediate-Repeats : StableQuery → (s : Session S Call) → Repeats (remediate host r s)
  unfolding remediate
  remediate-Repeats stable s =
      continue-induction Repeats (read host r.name s).0 (read host r.name s).1 _ (λ _ _. tt)
        (λ before _.
          continue-induction Repeats (make_plan r before) (read host r.name s).1 _ (λ _ _. tt)
            (λ (plan, already) e.
              carry_out-Repeats stable before (read host r.name s).1 plan already e))

  -- On a host where a query asked twice answers the same, a run of package-remediate that follows a
  -- run which applied its plan and verified it answers, asks for no write, changes nothing and
  -- verifies.
  pub remediate-idempotent :
      StableQuery
      → (s t : Session S Call) (out : Output) → remediate host r s ≡ (ok out, t)
      → out.applied ≡ true
      → out.verified ≡ true
      → Quiet t (remediate host r t)
  remediate-idempotent stable s t out e = subst Repeats e (remediate-Repeats stable s)
