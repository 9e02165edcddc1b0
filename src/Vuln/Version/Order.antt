-- ===== src/Vuln/Version/Order.antt =====
-- The components of two versions, padded with zeros, beside `ver_cmp` of vuln-match.
use pantheon_tools_catalog.Prelude.{
  ℕ, zero, suc, ◌+◌, ◌≤◌, ◌<◌, max, ◌≡◌, ◌↔◌, inl, inr, refl, List, [], ◌∷◌, length, Ordering,
  compare, arith, subst, sym, ap, ◌∙◌, compare-cases,
}
use native.Mathlib.Decide.{ℕ_discrete, dec_lt}
use pantheon_tools_catalog.Text.{Text}
use pantheon_tools_catalog.Vuln.Version.{components, at, cmp_from, ver_cmp}

-- The component of a version at a place, 0 past its end.
abbrev pub part : Text → ℕ → ℕ
part s i = at (components s) i

-- The two versions agree before place `i`, and there `a` is smaller.
abbrev pub SmallerAt : Text → Text → ℕ → Type 0
SmallerAt a b i = ((k : ℕ) → k < i → part a k ≡ part b k) × (part a i < part b i)

at-past : (v : List ℕ) (i : ℕ) → length v ≤ i → at v i ≡ 0
unfolding at
at-past [] i h = refl
at-past (x ∷ v) zero h = absurd (omega arith)
at-past (x ∷ v) (suc i) h = at-past v i (omega arith)

abbrev Decided : ℕ → ℕ → List ℕ → List ℕ → Ordering → Type 0
Decided left i va vb Ordering.eq = (k : ℕ) → i ≤ k → k < i + left → at va k ≡ at vb k
Decided left i va vb Ordering.lt =
    (k : ℕ) × (i ≤ k) × ((l : ℕ) → i ≤ l → l < k → at va l ≡ at vb l) × (at va k < at vb k)
Decided left i va vb Ordering.gt =
    (k : ℕ) × (i ≤ k) × ((l : ℕ) → i ≤ l → l < k → at va l ≡ at vb l) × (at vb k < at va k)

-- A place where the two agree, before what is decided.
widen :
    (left i : ℕ) (va vb : List ℕ) (o : Ordering)
    → at va i ≡ at vb i
    → Decided left (suc i) va vb o
    → Decided (suc left) i va vb o
widen left i va vb Ordering.eq e d = λ k a b. elim (ℕ_discrete i k) [
  | yes here ↦ subst (λ l. at va l ≡ at vb l) here e
  | no later ↦ d k (omega arith) (omega arith)
]
widen left i va vb Ordering.lt e (k, a, same, less) = (
  k,
  omega arith,
  λ l b c. elim (ℕ_discrete i l) [
    | yes here ↦ subst (λ l. at va l ≡ at vb l) here e
    | no later ↦ same l (omega arith) c
  ],
  less,
)
widen left i va vb Ordering.gt e (k, a, same, less) = (
  k,
  omega arith,
  λ l b c. elim (ℕ_discrete i l) [
    | yes here ↦ subst (λ l. at va l ≡ at vb l) here e
    | no later ↦ same l (omega arith) c
  ],
  less,
)

cmp_from-Decided : (left i : ℕ) (va vb : List ℕ) → Decided left i va vb (cmp_from left i va vb)
unfolding cmp_from
cmp_from-Decided zero i va vb = λ k a b. absurd (omega arith)
cmp_from-Decided (suc left) i va vb = elim (compare-cases (at va i) (at vb i)) [
  | inl (c, less) ↦
      subst (Decided (suc left) i va vb) (sym (step Ordering.lt c))
        (i, omega arith, λ l a b. absurd (omega arith), less)
  | inr (inl (c, same)) ↦
      subst (Decided (suc left) i va vb) (sym (step Ordering.eq c))
        (widen left i va vb _ same (cmp_from-Decided left (suc i) va vb))
  | inr (inr (c, less)) ↦
      subst (Decided (suc left) i va vb) (sym (step Ordering.gt c))
        (i, omega arith, λ l a b. absurd (omega arith), less)
]
  where
    rest_of : Ordering → Ordering
    rest_of o = elim o [
      | Ordering.eq ↦ cmp_from left (suc i) va vb
      | Ordering.lt ↦ Ordering.lt
      | Ordering.gt ↦ Ordering.gt
    ]

    step :
        (o : Ordering) → compare (at va i) (at vb i) ≡ o → cmp_from (suc left) i va vb ≡ rest_of o
    step o c = ap rest_of c

abbrev Verdict : Text → Text → Ordering → Type 0
Verdict a b Ordering.eq = (k : ℕ) → part a k ≡ part b k
Verdict a b Ordering.lt = (k : ℕ) × SmallerAt a b k
Verdict a b Ordering.gt = (k : ℕ) × SmallerAt b a k

Verdict-of :
    (a b : Text) (o : Ordering)
    → Decided
        (max (length (components a)) (length (components b)))
        0
        (components a)
        (components b)
        o
    → Verdict a b o
Verdict-of a b Ordering.eq d = λ k.
    elim (dec_lt k (max (length (components a)) (length (components b)))) [
      | yes inside ↦ d k (omega arith) (omega arith)
      | no past ↦
          at-past (components a) k (omega arith) ∙ sym (at-past (components b) k (omega arith))
    ]
Verdict-of a b Ordering.lt (k, _, same, less) = (k, (λ l h. same l (omega arith) h, less))
Verdict-of a b Ordering.gt (k, _, same, less) = (k, (λ l h. sym (same l (omega arith) h), less))

ver_cmp-Verdict : (a b : Text) → Verdict a b (ver_cmp a b)
unfolding ver_cmp
ver_cmp-Verdict a b = Verdict-of a b _ (cmp_from-Decided _ 0 (components a) (components b))

Verdict-back_lt :
    (a b : Text) (o : Ordering) → Verdict a b o → (k : ℕ) → SmallerAt a b k → o ≡ Ordering.lt
Verdict-back_lt a b Ordering.lt v k s = refl
Verdict-back_lt a b Ordering.eq v k (_, less) = absurd (omega (arith, v k))
Verdict-back_lt a b Ordering.gt (i, (same, less)) k (same', less') = elim (compare-cases i k) [
  | inl (_, before) ↦ absurd (omega (arith, same' i before))
  | inr (inl (_, e)) ↦ absurd (omega (arith, less', subst (λ l. part b l < part a l) e less))
  | inr (inr (_, after)) ↦ absurd (omega (arith, same k after))
]

Verdict-back_eq :
    (a b : Text) (o : Ordering) → Verdict a b o → ((k : ℕ) → part a k ≡ part b k) → o ≡ Ordering.eq
Verdict-back_eq a b Ordering.eq v all = refl
Verdict-back_eq a b Ordering.lt (k, (_, less)) all = absurd (omega (arith, all k))
Verdict-back_eq a b Ordering.gt (k, (_, less)) all = absurd (omega (arith, all k))

-- `ver_cmp` says less exactly if at some place, before which the padded components agree, the first
-- version has the smaller one; and equal exactly if all padded components agree.
pub ver_cmp-parts :
    (a b : Text)
    → ((ver_cmp a b ≡ Ordering.lt) ↔ ((i : ℕ) × SmallerAt a b i))
      × ((ver_cmp a b ≡ Ordering.eq) ↔ ((i : ℕ) → part a i ≡ part b i))
ver_cmp-parts a b = (
  (
    λ e. subst (Verdict a b) e (ver_cmp-Verdict a b),
    λ (i, s). Verdict-back_lt a b (ver_cmp a b) (ver_cmp-Verdict a b) i s,
  ),
  (
    λ e. subst (Verdict a b) e (ver_cmp-Verdict a b),
    λ all. Verdict-back_eq a b (ver_cmp a b) (ver_cmp-Verdict a b) all,
  ),
)
