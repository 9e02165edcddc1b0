-- ===== src/Sort/Tests.antt =====
-- Lemmas on `sort`: what holds of all elements or of some.
use pantheon_tools_catalog.Prelude.{
  ◌≡◌, refl, ◌∙◌, ap, Bool, ◌||◌, List, [], ◌∷◌, arith, Bool-cases, inl, inr, any, All,
}
use pantheon_tools_catalog.Sort.{insert_sorted, sort}

module _ {ℓ} {A : Type ℓ} (le : A → A → Bool) where
  any-insert_sorted :
      (p : A → Bool) (x : A) (xs : List A) → any p (insert_sorted le x xs) ≡ (p x || any p xs)
  unfolding insert_sorted
  any-insert_sorted p x [] = refl
  any-insert_sorted p x (y ∷ ys) = ground (arith, any-insert_sorted p x ys)

  pub any-sort : (p : A → Bool) (xs : List A) → any p (sort le xs) ≡ any p xs
  unfolding sort
  any-sort p [] = refl
  any-sort p (x ∷ xs) = any-insert_sorted p x (sort le xs) ∙ ap (λ b. p x || b) (any-sort p xs)

  module _ {κ} (P : A → Type κ) where
    All-insert_sorted : (x : A) (xs : List A) → P x → All P xs → All P (insert_sorted le x xs)
    unfolding insert_sorted
    All-insert_sorted x [] p h = (p, tt)
    All-insert_sorted x (y ∷ ys) p (q, h) = elim (Bool-cases (le x y)) [
      | inl first ↦ rw first (p, (q, h))
      | inr later ↦ rw later (q, All-insert_sorted x ys p h)
    ]

    pub All-sort : (xs : List A) → All P xs → All P (sort le xs)
    unfolding sort
    All-sort [] h = tt
    All-sort (x ∷ xs) (p, h) = All-insert_sorted x (sort le xs) p (All-sort xs h)
