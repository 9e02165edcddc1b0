-- ===== src/Fim/Diff/Quiet.antt =====
-- When `fim-diff` reports no drift.
use pantheon_tools_catalog.Prelude.{
  ◌≡◌, ◌↔◌, refl, sym, ◌∙◌, true, false, Option, none, some, [], ◌∷◌, arith, is_empty,
}
use pantheon_tools_catalog.Text.{Text}
use pantheon_tools_catalog.Text.Order.{text_eq_iff, text_eq_refl}
use pantheon_tools_catalog.Map.{Map, get}
use pantheon_tools_catalog.Map.Sorted.{IsSorted}
use pantheon_tools_catalog.Fim.Diff.{has_drift}
use pantheon_tools_catalog.Fim.Diff.Compare.{compare}
use pantheon_tools_catalog.Fim.Diff.Drift.{if_absent, change_of, compare-get}

get-nothing {ℓ} : {V : Type ℓ} (m : Map V) → ((k : Text) → get k m ≡ none) → is_empty m ≡ true
unfolding get
get-nothing [] h = refl
get-nothing ((j, v) ∷ m) h = ground (arith, h j, text_eq_refl j)

is_empty→get {ℓ} : {V : Type ℓ} (k : Text) (m : Map V) → is_empty m ≡ true → get k m ≡ none
unfolding get
is_empty→get k [] h = refl
is_empty→get k (x ∷ m) h = ground arith

agree :
    (o n : Option Text)
    → if_absent o n none ≡ none
    → if_absent n o none ≡ none
    → change_of o n ≡ none
    → n ≡ o
agree none none a r m = refl
agree none (some s) a r m = ground arith
agree (some t) none a r m = ground arith
agree (some t) (some s) a r m = ground (arith, text_eq_iff t s)

agree_back :
    (o n : Option Text)
    → n ≡ o
    → (if_absent o n none ≡ none) × (if_absent n o none ≡ none) × (change_of o n ≡ none)
agree_back none none e = (refl, refl, refl)
agree_back none (some s) e = ground arith
agree_back (some t) none e = ground arith
agree_back (some t) (some s) e = ground (arith, text_eq_iff t s)

-- Where the paths of the tree stand in strict order, no drift is reported exactly if the tree and the
-- baseline have the same paths with the same digests.
pub has_drift-compare :
    (current baseline : Map Text)
    → IsSorted current
    → (has_drift (compare current baseline) ≡ false) ↔ ((k : Text) → get k current ≡ get k baseline)
unfolding has_drift
has_drift-compare c b h = (
  λ quiet k.
      let (a, r, m) = compare-get c b k h in
      agree (get k b) (get k c) (sym a ∙ is_empty→get k (compare c b).added (ground arith))
        (sym r ∙ is_empty→get k (compare c b).removed (ground arith))
        (sym m ∙ is_empty→get k (compare c b).modified (ground arith)),
  λ e.
      let alike = λ (k : Text). agree_back (get k b) (get k c) (e k) in
      let a = get-nothing (compare c b).added (λ k. (compare-get c b k h).0 ∙ (alike k).0) in
      let r = get-nothing (compare c b).removed (λ k. (compare-get c b k h).1 ∙ (alike k).1) in
      let m = get-nothing (compare c b).modified (λ k. (compare-get c b k h).2 ∙ (alike k).2) in
      ground (arith, a, r, m),
)
