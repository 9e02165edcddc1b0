-- ===== src/Sort/Members.antt =====
-- Lemmas on `sort`: membership.
use pantheon_tools_catalog.Prelude.{◌↔◌, Bool, List, [], ◌∷◌, In, Bool-cases, inl, inr}
use pantheon_tools_catalog.Sort.{insert_sorted, sort}

module _ {A : Type 0} (le : A → A → Bool) where
  In-insert_sorted : (z x : A) (xs : List A) → In z (insert_sorted le x xs) ↔ In z (x ∷ xs)
  unfolding insert_sorted
  In-insert_sorted z x [] = (λ h. h, λ h. h)
  In-insert_sorted z x (y ∷ ys) = elim (Bool-cases (le x y)) [
    | inl first ↦ rw first (λ h. h, λ h. h)
    | inr later ↦
        let (to, from) = In-insert_sorted z x ys in
        rw later (
          elim [
            | inl e ↦ inr (inl e)
            | inr h ↦ elim (to h) [ inl e ↦ inl e | inr m ↦ inr (inr m) ]
          ],
          elim [
            | inl e ↦ inr (from (inl e))
            | inr (inl e) ↦ inl e
            | inr (inr m) ↦ inr (from (inr m))
          ],
        )
  ]

  -- A sorted list has the members of the list.
  pub In-sort : (z : A) (xs : List A) → In z (sort le xs) ↔ In z xs
  unfolding sort
  In-sort z [] = (λ h. h, λ h. h)
  In-sort z (x ∷ xs) =
      let (to, from) = In-insert_sorted z x (sort le xs) in
      let (to', from') = In-sort z xs in
      (
        λ h. elim (to h) [ inl e ↦ inl e | inr m ↦ inr (to' m) ],
        elim [ inl e ↦ from (inl e) | inr m ↦ from (inr (from' m)) ],
      )
