-- ===== src/Sort/Laws.antt =====
-- Lemmas on `sort`: permutation, order and length.
use mathlib.Core.List.{Perm}
use mathlib.Core.List.Perm
use pantheon_tools_catalog.Prelude.{
  ◌≡◌, refl, Bool, true, false, List, [], ◌∷◌, arith, Bool-cases, inl, inr, length, suc, ap, ◌∙◌,
}
use pantheon_tools_catalog.Sort.{insert_sorted, sort}

module _ {ℓ} {A : Type ℓ} (le : A → A → Bool) where
  abbrev pub Starts : A → List A → Type 0
  Starts x [] = Unit {0}
  Starts x (y ∷ ys) = le x y ≡ true

  abbrev pub IsSorted : List A → Type 0
  IsSorted [] = Unit {0}
  IsSorted (x ∷ xs) = Starts x xs × IsSorted xs

  insert_sorted-perm : (x : A) (xs : List A) → Perm (insert_sorted le x xs) (x ∷ xs)
  unfolding insert_sorted
  insert_sorted-perm x [] = Perm.refl _
  insert_sorted-perm x (y ∷ ys) = elim (Bool-cases (le x y)) [
    | inl b ↦ rw b (Perm.refl _)
    | inr b ↦ rw b (Perm.trans (Perm.cons y (insert_sorted-perm x ys)) (Perm.swap x y ys))
  ]

  pub sort-perm : (xs : List A) → Perm (sort le xs) xs
  unfolding sort
  sort-perm [] = Perm.refl _
  sort-perm (x ∷ xs) = Perm.trans (insert_sorted-perm x (sort le xs)) (Perm.cons x (sort-perm xs))

  length-insert_sorted : (x : A) (xs : List A) → length (insert_sorted le x xs) ≡ suc (length xs)
  unfolding insert_sorted
  length-insert_sorted x [] = refl
  length-insert_sorted x (y ∷ ys) = ground (arith, length-insert_sorted x ys)

  pub length-sort : (xs : List A) → length (sort le xs) ≡ length xs
  unfolding sort
  length-sort [] = refl
  length-sort (x ∷ xs) = length-insert_sorted x (sort le xs) ∙ ap suc (length-sort xs)

  module _ (total : (x y : A) → le x y ≡ false → le y x ≡ true) where
    insert_sorted-Starts :
        (z x : A) (xs : List A) → le z x ≡ true → Starts z xs → Starts z (insert_sorted le x xs)
    unfolding insert_sorted
    insert_sorted-Starts z x [] h s = h
    insert_sorted-Starts z x (y ∷ ys) h s = ground arith

    insert_sorted-IsSorted : (x : A) (xs : List A) → IsSorted xs → IsSorted (insert_sorted le x xs)
    unfolding insert_sorted
    insert_sorted-IsSorted x [] h = (tt, tt)
    insert_sorted-IsSorted x (y ∷ ys) h =
        ground (arith, total x y, insert_sorted-IsSorted x ys, insert_sorted-Starts y x ys)

    pub sort-IsSorted : (xs : List A) → IsSorted (sort le xs)
    unfolding sort
    sort-IsSorted [] = tt
    sort-IsSorted (x ∷ xs) = insert_sorted-IsSorted x (sort le xs) (sort-IsSorted xs)
