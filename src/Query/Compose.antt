-- ===== src/Query/Compose.antt =====
-- Two paths that are followed one after the other.
use pantheon_tools_catalog.Prelude.{
  ℕ, ◌≡◌, refl, sym, ap, ◌∙◌, Bool, true, List, [], ◌∷◌, ◌++◌, and_then, Bool-cases, Option-cases,
  if-induction, arith, inl, inr, ap₂,
}
use pantheon_tools_catalog.Text.{Text, split, push_front}
use pantheon_tools_catalog.Serde.{Serde}
use pantheon_tools_catalog.Query.{is_dot, descend, follow, navigate}

-- A first character does not see what follows the pieces.
push_front-push_front :
    (c d : ℕ) (pieces ps : List Text)
    → push_front c (push_front d pieces ++ ps) ≡ push_front c (push_front d pieces) ++ ps
push_front-push_front c d [] ps = refl
push_front-push_front c d (p ∷ pieces) ps = refl

push_front-append :
    (sep : ℕ → Bool) (c : ℕ) (s : Text) (ps : List Text)
    → push_front c (split sep s ++ ps) ≡ push_front c (split sep s) ++ ps
unfolding split
push_front-append sep c [] ps = refl
push_front-append sep c (d ∷ s) ps =
    if-induction (λ L. push_front c (L ++ ps) ≡ push_front c L ++ ps) (sep d) _ _ (λ _. refl)
      λ _. push_front-push_front c d (split sep s) ps

split-append :
    (sep : ℕ → Bool) (q r : Text) (c : ℕ)
    → sep c ≡ true
    → split sep (q ++ c ∷ r) ≡ split sep q ++ split sep r
unfolding split
split-append sep [] r c h = ground (arith, h)
split-append sep (d ∷ q) r c h = elim (Bool-cases (sep d)) [
  | inl here ↦ rw here (ap (λ ps. [] ∷ ps) (split-append sep q r c h))
  | inr there ↦
      rw there
        (ap (push_front d) (split-append sep q r c h) ∙ push_front-append sep d q (split sep r))
]

module _ (j : Serde) where
  follow-append :
      (v : j.Value) (xs ys : List Text)
      → follow j v (xs ++ ys) ≡ and_then (follow j v xs) (λ w. follow j w ys)
  unfolding follow
  follow-append v [] ys = refl
  follow-append v ([] ∷ xs) ys = follow-append v xs ys
  follow-append v ((c ∷ s) ∷ xs) ys = elim (Option-cases (descend j v (c ∷ s))) [
    | inl gone ↦ rw (gone, follow) refl
    | inr (w, found) ↦ rw (found, follow) (follow-append w xs ys)
  ]

  pub navigate-follow : (v : j.Value) (q : Text) → navigate j v q ≡ follow j v (split is_dot q)
  unfolding navigate follow split
  navigate-follow v [] = refl
  navigate-follow v (c ∷ q) = refl

  -- For each JSON value and two paths: to navigate by the two paths with a dot between them is to
  -- navigate by the first and, from what it leads to, by the second; the whole path leads nowhere
  -- where either part leads nowhere.
  pub navigate-append :
      (v : j.Value) (q r : Text)
      → navigate j v (q ++ b'.' ∷ r) ≡ and_then (navigate j v q) (λ w. navigate j w r)
  unfolding is_dot
  navigate-append v q r =
      navigate-follow v (q ++ b'.' ∷ r)
      ∙ ap (follow j v) (split-append is_dot q r b'.' refl)
      ∙ follow-append v (split is_dot q) (split is_dot r)
      ∙ ap₂ and_then (sym (navigate-follow v q)) (λ i w. sym (navigate-follow w r) i)
