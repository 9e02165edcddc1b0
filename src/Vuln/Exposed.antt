-- ===== src/Vuln/Exposed.antt =====
-- Which pairs of a package and an advisory `vuln-match` reports.
use pantheon_tools_catalog.Prelude.{
  ℕ, ◌≡◌, sym, ◌↔◌, ◌⊎◌, inl, inr, true, false, ◌||◌, Option, none, some, List, [], ◌∷◌, arith,
  is_empty, In, In-flat_map, any, Ordering, Bool-cases,
}
use pantheon_tools_catalog.Text.{Text, text_eq, eq_ignore_case}
use pantheon_tools_catalog.Text.Order.{text_eq_iff}
use pantheon_tools_catalog.Vuln.{
  Package, Advisory, Match, exact_hit, range_hit, match_of, match_one, match_package, match_all,
}
use pantheon_tools_catalog.Vuln.Version.{ver_cmp}
use pantheon_tools_catalog.Vuln.Version.Order.{SmallerAt, ver_cmp-parts}

-- The version stands in the advisory's list.
abbrev pub ListedIn : Advisory → Text → Type 0
ListedIn a version = elim a.vulnerable [ none ↦ ⊥ | some vs ↦ In version vs ]

-- The version is smaller than the fixed one, at the first place where they differ.
abbrev pub BelowFixed : Advisory → Text → Type 0
BelowFixed a version = elim a.fixed_version [
  | none ↦ ⊥
  | some fixed ↦ (i : ℕ) × SmallerAt version fixed i
]

abbrev pub Exposed : Package → Advisory → Type 0
Exposed p a =
    (is_empty p.name ≡ false)
    × (eq_ignore_case a.package_name p.name ≡ true)
    × (ListedIn a p.version ⊎ BelowFixed a p.version)

any_text :
    (version : Text) (vs : List Text) → (any (λ v. text_eq v version) vs ≡ true) ↔ In version vs
any_text version [] = (λ h. ground arith, λ h. absurd h)
any_text version (v ∷ vs) =
    let (to, from) = any_text version vs in
    (
      λ h. elim (Bool-cases (text_eq v version)) [
        | inl e ↦ inl (sym ((text_eq_iff v version).0 e))
        | inr other ↦ inr (to (ground arith))
      ],
      elim [
        | inl e ↦ ground (arith, text_eq_iff v version)
        | inr later ↦ let found = from later in ground arith
      ],
    )

exact_hit-ListedIn :
    (a : Advisory) (version : Text) → (exact_hit a version ≡ true) ↔ ListedIn a version
unfolding exact_hit
exact_hit-ListedIn a version = go a.vulnerable
  where
    go :
        (o : Option (List Text))
        → (elim o [ none ↦ false | some vs ↦ any (λ v. text_eq v version) vs ] ≡ true)
          ↔ (elim o [ none ↦ ⊥ | some vs ↦ In version vs ])
    go none = (λ h. ground arith, λ h. absurd h)
    go (some vs) = any_text version vs

range_hit-BelowFixed :
    (a : Advisory) (version : Text) → (range_hit a version ≡ true) ↔ BelowFixed a version
unfolding range_hit
range_hit-BelowFixed a version = go a.fixed_version
  where
    go :
        (o : Option Text)
        → (elim o [
          | none ↦ false
          | some fixed ↦ elim (ver_cmp version fixed) [ Ordering.lt ↦ true | _ ↦ false ]
        ]
            ≡ true)
          ↔ (elim o [ none ↦ ⊥ | some fixed ↦ (i : ℕ) × SmallerAt version fixed i ])
    go none = (λ h. ground arith, λ h. absurd h)
    go (some fixed) =
        let (to, from) = (ver_cmp-parts version fixed).0 in
        (λ h. to (ground arith), λ s. let e = from s in ground arith)

-- what the body of the loop over the advisories pushes
match_one-In :
    (m : Match) (p : Package) (a : Advisory)
    → In m (match_one p a) ↔ (
        (eq_ignore_case a.package_name p.name ≡ true)
        × (ListedIn a p.version ⊎ BelowFixed a p.version)
        × (m ≡ match_of p a))
unfolding match_one
match_one-In m p a =
    let (listed, listed') = exact_hit-ListedIn a p.version in
    let (below, below') = range_hit-BelowFixed a p.version in
    (
      λ h. elim (Bool-cases (eq_ignore_case a.package_name p.name)) [
        | inr other ↦ absurd (rw other at h)
        | inl same ↦ elim (Bool-cases (exact_hit a p.version)) [
          | inl e ↦ (same, inl (listed e), pushed h same (ground arith))
          | inr no_list ↦ elim (Bool-cases (range_hit a p.version)) [
            | inl r ↦ (same, inr (below r), pushed h same (ground arith))
            | inr no_range ↦ absurd (nothing h same (ground arith))
          ]
        ]
      ],
      λ (same, why, e).
          let hit : (exact_hit a p.version || range_hit a p.version) ≡ true = elim why [
            | inl l ↦ let x = listed' l in ground arith
            | inr b ↦ let x = below' b in ground arith
          ] in
          rw (same, hit) (inl e),
    )
  where
    pushed :
        In m (match_one p a)
        → eq_ignore_case a.package_name p.name ≡ true
        → (exact_hit a p.version || range_hit a p.version) ≡ true
        → m ≡ match_of p a
    pushed h same hit = elim (rw (same, hit) at h) [ inl e ↦ e | inr none_left ↦ absurd none_left ]

    nothing :
        In m (match_one p a)
        → eq_ignore_case a.package_name p.name ≡ true
        → (exact_hit a p.version || range_hit a p.version) ≡ false
        → ⊥
    nothing h same miss = rw (same, miss) at h

-- A match is reported exactly for a package with a name and an advisory of that name, in any case of
-- letters, where the version is listed as vulnerable or is smaller than the fixed version.
pub match_all-In :
    (m : Match) (packages : List Package) (advisories : List Advisory)
    → In m (match_all packages advisories) ↔ (
        (p : Package) × In p packages
        × ((a : Advisory) × In a advisories × Exposed p a × (m ≡ match_of p a)))
unfolding match_all
match_all-In m ps as_ =
    let (to, from) = In-flat_map m (match_package as_) ps in
    (
      λ h. let (p, i, k) = to h in (p, i, inside p k),
      λ (p, i, (a, k, (named, same, why), e)). from (p, i, outside p a k named same why e),
    )
  where
    inside :
        (p : Package)
        → In m (match_package as_ p)
        → (a : Advisory) × In a as_ × Exposed p a × (m ≡ match_of p a)
    inside p k = elim (Bool-cases (is_empty p.name)) [
      | inl e ↦ absurd (rw e at k)
      | inr named ↦
          let (a, i, o) = (In-flat_map m (match_one p) as_).0 (rw named at k) in
          let (same, why, e) = (match_one-In m p a).0 o in (a, i, (named, same, why), e)
    ]

    outside :
        (p : Package) (a : Advisory)
        → In a as_
        → is_empty p.name ≡ false
        → eq_ignore_case a.package_name p.name ≡ true
        → ListedIn a p.version ⊎ BelowFixed a p.version
        → m ≡ match_of p a
        → In m (match_package as_ p)
    outside p a k named same why e =
        rw named ((In-flat_map m (match_one p) as_).1 (a, k, (match_one-In m p a).1 (same, why, e)))
