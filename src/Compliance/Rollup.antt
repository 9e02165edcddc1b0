-- ===== src/Compliance/Rollup.antt =====
-- The counts of compliance-scan and the verdict on the whole policy.
use pantheon_tools_catalog.Prelude.{
  ◌+◌, ◌≡◌, refl, ◌↔◌, Bool, true, ◌&&◌, List, [], ◌∷◌, map, arith, length, All, ◌==◌,
  if◌then◌else◌,
}
use pantheon_tools_catalog.Text.{Text}
use pantheon_tools_catalog.Compliance.{Source, is_outcome, count, roll_up}
use pantheon_tools_catalog.Compliance.Host.{Host}
use pantheon_tools_catalog.Compliance.Outcomes.{Rule, Verdict, Outcome, pass, fail, unknown, error}
use pantheon_tools_catalog.Compliance.Rules.{eval_rule}

-- The numbers of each outcome, one verdict at a time.
count-cons :
    (v : Verdict) (vs : List Verdict) (o : Outcome)
    → count (v ∷ vs) o ≡ (if is_outcome v.outcome o then count vs o + 1 else count vs o)
count-cons v vs o = ground arith

counts-total :
    (vs : List Verdict)
    → length vs ≡ ((count vs pass + count vs fail) + count vs unknown) + count vs error
counts-total [] = refl
counts-total (v ∷ vs) = go (counts-total vs) v.outcome refl
  where
    go :
        length vs ≡ ((count vs pass + count vs fail) + count vs unknown) + count vs error
        → (o : Outcome) → v.outcome ≡ o
        → length (v ∷ vs)
          ≡ ((count (v ∷ vs) pass + count (v ∷ vs) fail) + count (v ∷ vs) unknown)
            + count (v ∷ vs) error
    go ih pass e = rw e (omega arith)
    go ih fail e = rw e (omega arith)
    go ih unknown e = rw e (omega arith)
    go ih error e = rw e (omega arith)

-- No verdict but passes.
abbrev pub AllPass : List Verdict → Type 0
AllPass = All (λ v. v.outcome ≡ pass)

abbrev none_else : List Verdict → Bool
none_else vs = count vs fail == 0 && count vs unknown == 0 && count vs error == 0

none_else-AllPass : (vs : List Verdict) → (none_else vs ≡ true) ↔ AllPass vs
none_else-AllPass [] = (λ _. tt, λ _. refl)
none_else-AllPass (v ∷ vs) = go (none_else-AllPass vs) v.outcome refl
  where
    go :
        (none_else vs ≡ true) ↔ AllPass vs
        → (o : Outcome) → v.outcome ≡ o
        → (none_else (v ∷ vs) ≡ true) ↔ AllPass (v ∷ vs)
    go (to, from) pass e = (λ h. (e, to (rw e at h)), λ (_, r). rw e (from r))
    go ih fail e = (λ h. absurd (ground arith), λ (p, _). absurd (ground arith))
    go ih unknown e = (λ h. absurd (ground arith), λ (p, _). absurd (ground arith))
    go ih error e = (λ h. absurd (ground arith), λ (p, _). absurd (ground arith))

length-map : {A B : Type 0} (f : A → B) (xs : List A) → length (map f xs) ≡ length xs
length-map f [] = refl
length-map f (x ∷ xs) = omega (arith, length-map f xs)

-- A policy passes exactly when every rule of it passes, so that an unknown outcome never counts as a
-- pass; there is one verdict for each rule, and the four counts add up to their number.
pub roll_up-AllPass :
    (host : Host) (id : Text) (source : Source) (rules : List Rule)
    → (((roll_up host id source rules).passed ≡ true) ↔ AllPass (map (eval_rule host) rules))
      × ((roll_up host id source rules).total ≡ length rules)
      × ((((roll_up host id source rules).pass_count + (roll_up host id source rules).fail_count)
              + (roll_up host id source rules).unknown_count)
            + (roll_up host id source rules).error_count
          ≡ length rules)
unfolding roll_up
roll_up-AllPass host id source rules =
    let vs = map (eval_rule host) rules in
    (
      none_else-AllPass vs,
      length-map (eval_rule host) rules,
      omega (arith, counts-total vs, length-map (eval_rule host) rules),
    )
