-- ===== src/Remediate/Service/Verified.antt =====
-- What a run of service-remediate asks the host to change, and what its answer says.
use pantheon_tools_catalog.Prelude.{
  ℕ, zero, suc, ◌≡◌, refl, sym, ◌∙◌, ◌⊎◌, inl, inr, true, false, not, ◌&&◌, ◌||◌, List, [], ◌∷◌,
  ◌++◌, append-nil, Result, ok, err, if◌then◌else◌, if-induction, arith,
}
use pantheon_tools_catalog.Remediate.Exec.{Session, Exec, continue-induction, pure, ◌>>>=◌}
use pantheon_tools_catalog.Remediate.Service.{
  Observed, Desired, Call, Error, Services, Request, Output, planned, read, write, settle, look,
  act, remediate, satisfied_by, observable, unseen, same, is_restart, to_run, to_restart, to_enable,
  to_disable, to_stop,
}

-- The writes of an output: its plan when it was applied, else none.
abbrev pub written : Output → List Call
written out = if out.applied then out.plan else []

satisfied_by-observable :
    (d : Desired) (o : Observed) → satisfied_by d o ≡ true → observable d ≡ true
unfolding satisfied_by observable
satisfied_by-observable to_run o h = refl
satisfied_by-observable to_stop o h = refl
satisfied_by-observable to_restart o h = ground arith
satisfied_by-observable to_enable o h = ground arith
satisfied_by-observable to_disable o h = ground arith

module _ {S : Type 0} (host : Services S) (r : Request) where
  -- the end of a session that began with the writes `old`
  abbrev pub Sound : List Call → Result Error Output × Session S Call → Type 0
  Sound old (ok out, t) =
      (t.calls ≡ old ++ written out)
      × ((out.applied && not r.apply) ≡ false)
      × (unseen out.before ≡ false)
      × (out.verified
          ≡ (if observable r.desired then satisfied_by r.desired out.after else out.applied))
  Sound old (err e, t) = (t.calls ≡ old) ⊎ (r.apply ≡ true)

  -- after the wait
  later : Session S Call → Session S Call
  later s = record s { host = (host.sleep s.host).1 }

  settle-calls :
      (left : ℕ) (after : Observed) (s : Session S Call)
      → (settle host left r after s).1.calls ≡ s.calls
  unfolding settle read later
  settle-calls zero after s = refl
  settle-calls (suc left) after s =
      if-induction {A = Exec S Call Error Observed} (λ m. (m s).1.calls ≡ s.calls)
        (satisfied_by r.desired after) _ _ (λ _. refl)
        (λ _.
          continue-induction (λ x. x.1.calls ≡ s.calls) (read host r.name (later s)).0
            (read host r.name (later s)).1 (settle host left r) (λ _ _. refl)
            (λ again _. settle-calls left again (read host r.name (later s)).1))

  look-calls : (after : Observed) (s : Session S Call) → (look host r after s).1.calls ≡ s.calls
  unfolding look
  look-calls after s =
      if-induction {A = Exec S Call Error Observed} (λ m. (m s).1.calls ≡ s.calls)
        (observable r.desired) _ _ (λ _. settle-calls 5 after s) (λ _. refl)

  read-calls : (s : Session S Call) → (read host r.name s).1.calls ≡ s.calls
  unfolding read
  read-calls s = refl

  write-calls : (s : Session S Call) → (write host r s).1.calls ≡ s.calls ++ planned r ∷ []
  unfolding write
  write-calls s = refl

  abbrev applied_output : Observed → Observed → Output
  applied_output before after = record {
    before = before;
    after = after;
    plan = planned r ∷ [];
    changed = not (same before after) || is_restart r.desired;
    applied = true;
    verified = if observable r.desired then satisfied_by r.desired after else true;
    dry_run = false;
  }

  applies : not r.apply ≡ false → r.apply ≡ true
  applies wet = ground arith

  already_verified :
      (before : Observed)
      → satisfied_by r.desired before ≡ true
      → true ≡ (if observable r.desired then satisfied_by r.desired before else false)
  already_verified before h = let o = satisfied_by-observable r.desired before h in rw (o, h) refl

  dry_verified :
      (before : Observed)
      → satisfied_by r.desired before ≡ false
      → false ≡ (if observable r.desired then satisfied_by r.desired before else false)
  dry_verified before h = ground arith

  act-Sound :
      (before : Observed) (s : Session S Call)
      → unseen before ≡ false
      → Sound s.calls (act host r before s)
  unfolding act
  act-Sound before s seen =
      if-induction {A = Exec S Call Error Output} (λ m. Sound s.calls (m s))
        (satisfied_by r.desired before) _ _
        (λ done. (sym (append-nil s.calls), refl, seen, already_verified before done))
        (λ open_.
          if-induction {A = Exec S Call Error Output} (λ m. Sound s.calls (m s)) (not r.apply) _ _
            (λ dry. (sym (append-nil s.calls), refl, seen, dry_verified before open_))
            (λ wet.
              continue-induction (Sound s.calls) (write host r s).0 (write host r s).1
                (λ _. read host r.name >>>= λ first.
                  look host r first >>>= λ after. pure (applied_output before after))
                (λ _ _. inr (applies wet))
                (λ _ _.
                  continue-induction (Sound s.calls) (read host r.name (write host r s).1).0
                    (read host r.name (write host r s).1).1
                    (λ first. look host r first >>>= λ after. pure (applied_output before after))
                    (λ _ _. inr (applies wet))
                    (λ first _.
                      continue-induction (Sound s.calls)
                        (look host r first (read host r.name (write host r s).1).1).0
                        (look host r first (read host r.name (write host r s).1).1).1
                        (λ after. pure (applied_output before after)) (λ _ _. inr (applies wet))
                        (λ after _. (
                          look-calls first (read host r.name (write host r s).1).1
                              ∙ read-calls (write host r s).1
                              ∙ write-calls s,
                          wet,
                          seen,
                          refl,
                        ))))))

  -- A run of service-remediate that answers has seen the service; it has asked the host for the
  -- writes of its plan if it says `applied`, which needs `apply`, and for none if not; and `verified`
  -- says whether `after` is the desired state where the status can show it, and else whether the
  -- write was made. A run that ends in an error has asked for no write, or `apply` was given.
  pub remediate-Sound : (s : Session S Call) → Sound s.calls (remediate host r s)
  unfolding remediate read
  remediate-Sound s =
      continue-induction (Sound s.calls) (read host r.name s).0 (read host r.name s).1 _
        (λ _ _. inl refl)
        (λ before _.
          if-induction {A = Exec S Call Error Output}
            (λ m. Sound s.calls (m (read host r.name s).1)) (unseen before) _ _ (λ _. inl refl)
            (λ seen. act-Sound before (read host r.name s).1 seen))
