-- ===== src/Inspect/Inventory/Compliance.antt =====
-- When service-baseline-diff calls a host compliant.
use pantheon_tools_catalog.Prelude.{
  ◌≡◌, ◌↔◌, refl, sym, ap, ◌∙◌, true, ◌&&◌, some, List, [], ◌∷◌, ◌++◌, append-nil, append_assoc,
  filter_map, In, is_empty, arith, Option-cases, Bool-cases, inl, inr,
}
use pantheon_tools_catalog.Text.{Text, text_eq}
use pantheon_tools_catalog.Text.Order.{text_eq_iff}
use pantheon_tools_catalog.Map.{Map, get}
use pantheon_tools_catalog.Inspect.Inventory.{
  ServiceDiff, diff_one, diff_expected, compliant, service_diff,
}
use pantheon_tools_catalog.Inspect.Inventory.Reported.{
  Iterates, absent, differs, In-absent, In-differs,
}

record Checked (obs m : Map Text) (d d' : ServiceDiff) : Type 0 where
  missing : d'.missing ≡ d.missing ++ filter_map (absent obs) m
  mismatches :
      is_empty d'.mismatches ≡ (is_empty d.mismatches && is_empty (filter_map (differs obs) m))

empty-append {ℓ} :
    {A : Type ℓ} (xs ys : List A) → is_empty (xs ++ ys) ≡ (is_empty xs && is_empty ys)
empty-append [] ys = refl
empty-append (x ∷ xs) ys = refl

diff_expected-Checked :
    (obs m : Map Text) (d : ServiceDiff) → Checked obs m d (diff_expected obs m d)
unfolding diff_expected diff_one
diff_expected-Checked obs [] d = record {
  missing = sym (append-nil d.missing);
  mismatches = ground arith;
}
diff_expected-Checked obs ((k, v) ∷ m) d =
    let next = diff_expected-Checked obs m (diff_one obs k v d) in
    record {
      missing =
          ground
            (arith, next.missing, append_assoc d.missing ((k, v) ∷ []) (filter_map (absent obs) m));
      mismatches = elim (Option-cases (get k obs)) [
        | inl q ↦ ground (arith, q, next.mismatches)
        | inr (old, q) ↦
            ground (arith, q, next.mismatches, empty-append d.mismatches ((k, (v, old)) ∷ []))
      ];
    }

is_empty-In : {A : Type 0} (x : A) (xs : List A) → is_empty xs ≡ true → In x xs → ⊥
is_empty-In x [] e h = h
is_empty-In x (y ∷ xs) e h = ground arith

In-is_empty : {A : Type 0} (xs : List A) → ((x : A) → In x xs → ⊥) → is_empty xs ≡ true
In-is_empty [] h = refl
In-is_empty (x ∷ xs) h = absurd (h x (inl refl))

-- In whatever order an iteration meets the entries of a map, all of them and no other,
-- service-baseline-diff calls the host compliant exactly if
-- each expected service is observed in the expected state.
pub service_diff-compliant :
    (order : Map Text → Map Text)
    → Iterates order
    → (obs exp : Map Text)
    → (compliant (service_diff order obs exp) ≡ true)
      ↔ ((n want : Text) → In (n, want) exp → get n obs ≡ some want)
unfolding service_diff compliant
service_diff-compliant order law obs exp =
    let c = diff_expected-Checked obs (order exp) (record { mismatches = []; missing = [] }) in
    (
      λ good n want i.
          let no_missing : is_empty (filter_map (absent obs) (order exp)) ≡ true =
            ground (arith, c.missing) in
          let no_mismatch : is_empty (filter_map (differs obs) (order exp)) ≡ true =
            ground (arith, c.mismatches) in
          elim (Option-cases (get n obs)) [
            | inl gone ↦ absurd (
                is_empty-In (n, want) _ no_missing
                  ((In-absent obs exp order law (n, want)).1 (i, gone)))
            | inr (have, found) ↦ elim (Bool-cases (text_eq have want)) [
              | inl same ↦ found ∙ ap some ((text_eq_iff have want).0 same)
              | inr other ↦ absurd (
                  is_empty-In (n, (have, want)) _ no_mismatch
                    ((In-differs obs exp order law n have want).1 (i, found, other)))
            ]
          ],
      λ all.
          let a = In-is_empty (filter_map (absent obs) (order exp)) (λ (n, want) h.
            let (i, gone) = (In-absent obs exp order law (n, want)).0 h in
            ground (arith, all n want i)) in
          let d = In-is_empty (filter_map (differs obs) (order exp)) (λ (n, (old, new)) h.
            let (i, found, other) = (In-differs obs exp order law n old new).0 h in
            ground (arith, all n new i, text_eq_iff old new)) in
          ground (arith, c.missing, c.mismatches, a, d),
    )
