-- ===== src/Text/Order.antt =====
-- Equality and the lexicographic order of texts.
use pantheon_tools_catalog.Prelude.{
  Bool, ◌≡◌, refl, ◌↔◌, true, false, [], ◌∷◌, arith, compare, Ordering,
}
use pantheon_tools_catalog.Text.{Text, text_eq}

pub text_eq_refl : (a : Text) → text_eq a a ≡ true
unfolding text_eq
text_eq_refl [] = refl
text_eq_refl (x ∷ xs) = ground (arith, text_eq_refl xs)

pub text_eq→≡ : (a b : Text) → text_eq a b ≡ true → a ≡ b
unfolding text_eq
text_eq→≡ [] [] h = refl
text_eq→≡ [] (y ∷ ys) h = ground arith
text_eq→≡ (x ∷ xs) [] h = ground arith
text_eq→≡ (x ∷ xs) (y ∷ ys) h = ground (arith, text_eq→≡ xs ys)

pub text_eq_iff : (a b : Text) → (text_eq a b ≡ true) ↔ (a ≡ b)
text_eq_iff a b = (text_eq→≡ a b, λ e. rw e (text_eq_refl b))

-- `a.cmp(b)`
unfoldable pub text_cmp : Text → Text → Ordering
text_cmp [] [] = Ordering.eq
text_cmp [] (y ∷ ys) = Ordering.lt
text_cmp (x ∷ xs) [] = Ordering.gt
text_cmp (x ∷ xs) (y ∷ ys) = elim (compare x y) [
  | Ordering.lt ↦ Ordering.lt
  | Ordering.eq ↦ text_cmp xs ys
  | Ordering.gt ↦ Ordering.gt
]

-- `a <= b`
unfoldable pub text_le : Text → Text → Bool
unfolding text_cmp
text_le a b = elim (text_cmp a b) [ Ordering.gt ↦ false | _ ↦ true ]

pub text_cmp_refl : (a : Text) → text_cmp a a ≡ Ordering.eq
unfolding text_cmp
text_cmp_refl [] = refl
text_cmp_refl (x ∷ xs) = ground (arith, text_cmp_refl xs)

pub text_cmp_eq : (a b : Text) → text_cmp a b ≡ Ordering.eq → a ≡ b
unfolding text_cmp
text_cmp_eq [] [] h = refl
text_cmp_eq [] (y ∷ ys) h = ground arith
text_cmp_eq (x ∷ xs) [] h = ground arith
text_cmp_eq (x ∷ xs) (y ∷ ys) h = ground (arith, text_cmp_eq xs ys)

abbrev pub Before : Text → Text → Type 0
Before a b = text_cmp a b ≡ Ordering.lt

pub Before-trans : (a b c : Text) → Before a b → Before b c → Before a c
unfolding text_cmp
Before-trans [] [] c h k = ground arith
Before-trans [] (y ∷ ys) [] h k = ground arith
Before-trans [] (y ∷ ys) (z ∷ zs) h k = refl
Before-trans (x ∷ xs) [] c h k = ground arith
Before-trans (x ∷ xs) (y ∷ ys) [] h k = ground arith
Before-trans (x ∷ xs) (y ∷ ys) (z ∷ zs) h k = ground (arith, Before-trans xs ys zs)

pub text_cmp_gt : (a b : Text) → text_cmp a b ≡ Ordering.gt → Before b a
unfolding text_cmp
text_cmp_gt [] [] h = ground arith
text_cmp_gt [] (y ∷ ys) h = ground arith
text_cmp_gt (x ∷ xs) [] h = refl
text_cmp_gt (x ∷ xs) (y ∷ ys) h = ground (arith, text_cmp_gt xs ys)

pub Before-ne : (a b : Text) → Before a b → text_eq a b ≡ false
unfolding text_cmp text_eq
Before-ne [] [] h = ground arith
Before-ne [] (y ∷ ys) h = refl
Before-ne (x ∷ xs) [] h = refl
Before-ne (x ∷ xs) (y ∷ ys) h = ground (arith, Before-ne xs ys)

pub After-ne : (a b : Text) → text_cmp a b ≡ Ordering.gt → text_eq a b ≡ false
unfolding text_cmp text_eq
After-ne [] [] h = ground arith
After-ne [] (y ∷ ys) h = ground arith
After-ne (x ∷ xs) [] h = refl
After-ne (x ∷ xs) (y ∷ ys) h = ground (arith, After-ne xs ys)

pub text_eq_comm : (a b : Text) → text_eq a b ≡ text_eq b a
unfolding text_eq
text_eq_comm [] [] = refl
text_eq_comm [] (y ∷ ys) = refl
text_eq_comm (x ∷ xs) [] = refl
text_eq_comm (x ∷ xs) (y ∷ ys) = ground (arith, text_eq_comm xs ys)

pub text_le-total : (a b : Text) → text_le a b ≡ false → text_le b a ≡ true
unfolding text_le
text_le-total a b h = ground (arith, text_cmp_gt a b)

-- What is not after another text, and not equal to it, is before it.
pub text_le-Before : (a b : Text) → text_le a b ≡ true → text_eq b a ≡ false → Before a b
unfolding text_le
text_le-Before a b h ne = ground (arith, text_cmp_eq a b, text_eq_refl a)
