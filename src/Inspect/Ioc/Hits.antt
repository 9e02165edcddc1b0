-- ===== src/Inspect/Ioc/Hits.antt =====
-- Which observations ioc-match reports.
use pantheon_tools_catalog.Prelude.{
  ◌≡◌, ◌≢◌, ◌↔◌, ◌⊎◌, refl, sym, subst, ap, ◌∙◌, Bool, true, false, none, some, List, [], ◌∷◌, ◌++◌,
  any, find, filter_map, In, In-append, In-filter_map, arith, Bool-cases, Option-cases, inl, inr,
}
use pantheon_tools_catalog.Text.{Text, text_eq}
use pantheon_tools_catalog.Text.Order.{text_eq_iff, text_eq_refl}
use pantheon_tools_catalog.Text.Find.{ends_with}
use pantheon_tools_catalog.Inspect.Ioc.{
  Kind, hash, domain, ip, Match, Lists, domain_hits, set_hit, domain_hit, match_lists,
}

ends_with-append : (p pre : Text) → ends_with p (pre ++ p) ≡ true
unfolding ends_with
ends_with-append [] [] = text_eq_refl []
ends_with-append (x ∷ p) [] = ground (arith, text_eq_refl (x ∷ p))
ends_with-append p (y ∷ pre) = ground (arith, ends_with-append p pre)

ends_with_iff : (p s : Text) → (ends_with p s ≡ true) ↔ ((pre : Text) × (s ≡ pre ++ p))
unfolding ends_with
ends_with_iff p [] = (
  λ h. ([], sym ((text_eq_iff p []).0 h)),
  λ (pre, e). subst (λ z. ends_with p z ≡ true) (sym e) (ends_with-append p pre),
)
ends_with_iff p (x ∷ xs) = (
  λ h. elim (Bool-cases (text_eq p (x ∷ xs))) [
    | inl whole ↦ ([], sym ((text_eq_iff p (x ∷ xs)).0 whole))
    | inr part ↦
        let (pre, e) = (ends_with_iff p xs).0 (ground arith) in (x ∷ pre, ap (λ l. x ∷ l) e)
  ],
  λ (pre, e). subst (λ z. ends_with p z ≡ true) (sym e) (ends_with-append p pre),
)

-- An observation is a domain of the indicator itself or one of its subdomains.
abbrev pub Within : Text → Text → Type 0
Within observed ioc = (observed ≡ ioc) ⊎ ((pre : Text) × (observed ≡ pre ++ b'.' ∷ ioc))

-- A domain hits an indicator exactly if it is equal to it or a subdomain of it, cut at a dot.
pub domain_hits-Within :
    (observed ioc : Text) → (domain_hits observed ioc ≡ true) ↔ Within observed ioc
unfolding domain_hits
domain_hits-Within o i =
    let (to, from) = ends_with_iff (b'.' ∷ i) o in
    let (eq_to, eq_from) = text_eq_iff o i in
    (
      λ h. elim (Bool-cases (text_eq o i)) [
        | inl same ↦ inl (eq_to same)
        | inr other ↦ inr (to (ground arith))
      ],
      elim [
        | inl e ↦ let x = eq_from e in ground arith
        | inr sub ↦ let x = from sub in ground arith
      ],
    )

find-none : (f : Text → Bool) (x : Text) (xs : List Text) → find f xs ≡ none → In x xs → f x ≡ false
find-none f x [] e h = absurd h
find-none f x (y ∷ ys) e h = elim (Bool-cases (f y)) [
  | inl hit ↦ ground arith
  | inr miss ↦ elim h [
    | inl here ↦ rw here miss
    | inr later ↦ find-none f x ys (ground arith) later
  ]
]

find-some :
    (f : Text → Bool) (x : Text) (xs : List Text) → find f xs ≡ some x → In x xs × (f x ≡ true)
find-some f x [] e = ground arith
find-some f x (y ∷ ys) e = elim (Bool-cases (f y)) [
  | inl hit ↦ let same : y ≡ x = ground arith in (inl (sym same), subst (λ z. f z ≡ true) same hit)
  | inr miss ↦ let (m, h) = find-some f x ys (ground arith) in (inr m, h)
]

any-In : (x : Text) (xs : List Text) → (any (text_eq x) xs ≡ true) ↔ In x xs
any-In x [] = ground arith
any-In x (y ∷ ys) =
    let (to, from) = any-In x ys in
    let (eq_to, eq_from) = text_eq_iff x y in
    (
      λ h. elim (Bool-cases (text_eq x y)) [
        | inl same ↦ inl (eq_to same)
        | inr other ↦ inr (to (ground arith))
      ],
      elim [ inl e ↦ let s = eq_from e in ground arith | inr m ↦ let s = from m in ground arith ],
    )

domain_hit-Within :
    (iocs : List Text) (d : Text) (m : Match)
    → domain_hit iocs d ≡ some m
    → (m.kind ≡ domain) × (m.observed ≡ d) × In m.ioc iocs × Within d m.ioc
unfolding domain_hit
domain_hit-Within iocs d m e = elim (Option-cases (find (domain_hits d) iocs)) [
  | inl gone ↦ absurd (ground (arith, gone, e))
  | inr (hit, found) ↦
      let same : record { kind = domain; observed = d; ioc = hit } ≡ m = ground (arith, found, e) in
      let (i, h) = find-some (domain_hits d) hit iocs found in
      (
        ap (λ x. x.kind) (sym same),
        ap (λ x. x.observed) (sym same),
        subst (λ x. In x.ioc iocs) same i,
        subst (λ x. Within d x.ioc) same ((domain_hits-Within d hit).0 h),
      )
]

set_hit-kind :
    (kind : Kind) (iocs : List Text) (x : Text) (m : Match)
    → set_hit kind iocs x ≡ some m
    → (m.kind ≡ kind) × (m.observed ≡ x)
unfolding set_hit
set_hit-kind kind iocs x m e = elim (Bool-cases (any (text_eq x) iocs)) [
  | inl hit ↦
      let same : record { kind = kind; observed = x; ioc = x } ≡ m = ground (arith, hit, e) in
      (ap (λ y. y.kind) (sym same), ap (λ y. y.observed) (sym same))
  | inr miss ↦ absurd (ground (arith, miss, e))
]

domain_hit-found :
    (iocs : List Text) (d i : Text)
    → In i iocs
    → Within d i
    → (m : Match) × (domain_hit iocs d ≡ some m)
unfolding domain_hit
domain_hit-found iocs d i listed within = elim (Option-cases (find (domain_hits d) iocs)) [
  | inl gone ↦
      let miss = find-none (domain_hits d) i iocs gone listed in
      let hit = (domain_hits-Within d i).1 within in absurd (ground (arith, miss, hit))
  | inr (hit, found) ↦
      (record { kind = domain; observed = d; ioc = hit }, rw (domain_hit, found) refl)
]

-- ioc-match reports a domain exactly if it is observed and some indicator domain is equal to it or
-- a parent domain of it.
pub match_lists-Within :
    (o i : Lists) (d : Text)
    → ((m : Match) × In m (match_lists o i) × (m.kind ≡ domain) × (m.observed ≡ d))
      ↔ (In d o.domains × ((ioc : Text) × In ioc i.domains × Within d ioc))
unfolding match_lists
match_lists-Within o i d = (
  λ (m, listed, kind, seen). elim ((In-append m (hashes_hit ++ domains_hit) ips_hit).0 listed) [
    | inl front ↦ elim ((In-append m hashes_hit domains_hit).0 front) [
      | inl h ↦
          let (x, _, e) = (In-filter_map m (set_hit hash i.hashes) o.hashes).0 h in
          absurd (no_hash (sym ((set_hit-kind hash i.hashes x m e).0) ∙ kind))
      | inr h ↦
          let (x, observed, e) = (In-filter_map m (domain_hit i.domains) o.domains).0 h in
          let (_, same, listed', within) = domain_hit-Within i.domains x m e in
          let is_d : x ≡ d = sym same ∙ seen in
          (
            subst (λ z. In z o.domains) is_d observed,
            (m.ioc, listed', subst (λ z. Within z m.ioc) is_d within),
          )
    ]
    | inr h ↦
        let (x, _, e) = (In-filter_map m (set_hit ip i.ips) o.ips).0 h in
        absurd (no_ip (sym ((set_hit-kind ip i.ips x m e).0) ∙ kind))
  ],
  λ (observed, (ioc, listed, within)).
      let (m, e) = domain_hit-found i.domains d ioc listed within in
      let (kind, same, _, _) = domain_hit-Within i.domains d m e in
      (
        m,
        (In-append m (hashes_hit ++ domains_hit) ips_hit).1 (
            inl (
              (In-append m hashes_hit domains_hit).1
                (inr ((In-filter_map m (domain_hit i.domains) o.domains).1 (d, observed, e))))),
        kind,
        same,
      ),
)
  where
    hashes_hit : List Match
    hashes_hit = filter_map (set_hit hash i.hashes) o.hashes

    domains_hit : List Match
    domains_hit = filter_map (domain_hit i.domains) o.domains

    ips_hit : List Match
    ips_hit = filter_map (set_hit ip i.ips) o.ips

    no_hash : hash ≢ domain
    no_hash h = ground arith

    no_ip : ip ≢ domain
    no_ip h = ground arith
