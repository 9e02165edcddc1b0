-- ===== src/Prelude/Member.antt =====
-- Membership by position, which the tactics take apart, and lists made of lists.
use mathlib.Core.Path.{ap, sym, ◌∙◌}
use mathlib.Core.Option.{Option, none, some}
use mathlib.Core.Logic.{◌≢◌}
use native.Mathlib.Omega.{arith}
use pantheon_tools_catalog.Prelude.Tests.{Option-cases}
use pantheon_tools_catalog.Prelude.Lists.{filter_map}
use mathlib.Core.Path.{◌≡◌, refl, subst}
use mathlib.Core.Logic.{◌↔◌, ◌⊎◌, inl, inr}
use mathlib.Core.List.{List, [], ◌∷◌, ◌++◌}

module _ {A : Type 0} where
  abbrev pub In : A → List A → Type 0
  In x [] = ⊥
  In x (y ∷ ys) = (x ≡ y) ⊎ In x ys

  pub In-append : (x : A) (xs ys : List A) → In x (xs ++ ys) ↔ (In x xs ⊎ In x ys)
  In-append x [] ys = (inr, elim [ inl h ↦ absurd h | inr h ↦ h ])
  In-append x (y ∷ xs) ys =
      let (to, from) = In-append x xs ys in
      (
        elim [ inl e ↦ inl (inl e) | inr h ↦ elim (to h) [ inl a ↦ inl (inr a) | inr b ↦ inr b ] ],
        elim [
          | inl (inl e) ↦ inl e
          | inl (inr h) ↦ inr (from (inl h))
          | inr h ↦ inr (from (inr h))
        ],
      )

module _ {A B : Type 0} where
  abbrev pub flat_map : (A → List B) → List A → List B
  flat_map f [] = []
  flat_map f (x ∷ xs) = f x ++ flat_map f xs

  pub In-flat_map :
      (y : B) (f : A → List B) (xs : List A)
      → In y (flat_map f xs) ↔ ((x : A) × In x xs × In y (f x))
  In-flat_map y f [] = (λ h. absurd h, λ (x, h, _). h)
  In-flat_map y f (x ∷ xs) =
      let (to, from) = In-flat_map y f xs in
      let (split, join) = In-append y (f x) (flat_map f xs) in
      (
        λ h. elim (split h) [
          | inl here ↦ (x, inl refl, here)
          | inr there ↦ let (z, m, k) = to there in (z, inr m, k)
        ],
        λ (z, m, k). elim m [
          | inl e ↦ join (inl (subst (λ w. In y (f w)) e k))
          | inr later ↦ join (inr (from (z, later, k)))
        ],
      )

  pub In-filter_map :
      (y : B) (f : A → Option B) (xs : List A)
      → In y (filter_map f xs) ↔ ((x : A) × In x xs × (f x ≡ some y))
  In-filter_map y f [] = (λ h. absurd h, λ (x, h, _). h)
  In-filter_map y f (x ∷ xs) =
      let (to, from) = In-filter_map y f xs in
      let later : (z : A) × In z xs × (f z ≡ some y) → (z : A) × In z (x ∷ xs) × (f z ≡ some y) =
        λ (z, m, k). (z, inr m, k) in
      elim (Option-cases (f x)) [
        | inl none_here ↦
            rw (none_here, filter_map)
              (
                λ h. later (to h),
                λ (z, m, k). elim m [
                  | inl e ↦ absurd (some-none (sym k ∙ ap f e ∙ none_here))
                  | inr m' ↦ from (z, m', k)
                ],
              )
        | inr (b, here) ↦
            rw (here, filter_map)
              (
                λ h. elim h [
                  | inl e ↦ (x, inl refl, here ∙ ap some (sym e))
                  | inr m ↦ later (to m)
                ],
                λ (z, m, k). elim m [
                  | inl e ↦ inl (some-injective (sym k ∙ ap f e ∙ here))
                  | inr m' ↦ inr (from (z, m', k))
                ],
              )
      ]
    where
      some-none : some y ≢ none
      some-none h = ground arith

      some-injective : {b : B} → some y ≡ some b → y ≡ b
      some-injective h = ground arith
