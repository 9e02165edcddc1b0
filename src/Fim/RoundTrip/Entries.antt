-- ===== src/Fim/RoundTrip/Entries.antt =====
-- Maps that are made of entries, by path.
use pantheon_tools_catalog.Prelude.{
  ◌≡◌, ◌↔◌, ◌⊎◌, refl, sym, ◌∙◌, ap, subst, true, Option, none, some, List, [], ◌∷◌, foldl, In,
  if◌then◌else◌, arith, inl, inr, Bool-cases, Option-cases,
}
use pantheon_tools_catalog.Text.{Text, text_eq}
use pantheon_tools_catalog.Text.Order.{text_eq_iff}
use pantheon_tools_catalog.Map.{Map, get, insert, get-insert}
use pantheon_tools_catalog.Fim.Snapshot.{Entry}

unfoldable pub put : Map Text → Entry → Map Text
put m e = insert e.path e.sha256 m

-- One path has one digest.
abbrev pub Functional : List Entry → Type 0
Functional es = (d e : Entry) → In d es → In e es → d.path ≡ e.path → d.sha256 ≡ e.sha256

abbrev last_value : Text → Option Text → List Entry → Option Text
last_value k o [] = o
last_value k o (e ∷ es) = last_value k (if text_eq e.path k then some e.sha256 else o) es

get-last_value :
    (k : Text) (m : Map Text) (es : List Entry) → get k (foldl put m es) ≡ last_value k (get k m) es
unfolding put
get-last_value k m [] = refl
get-last_value k m (e ∷ es) =
    get-last_value k (put m e) es ∙ ap (λ o. last_value k o es) (get-insert e.path k e.sha256 m)

last_value-In :
    (k v : Text) (o : Option Text) (es : List Entry)
    → last_value k o es ≡ some v
    → (o ≡ some v) ⊎ ((e : Entry) × In e es × (e.path ≡ k) × (e.sha256 ≡ v))
last_value-In k v o [] h = inl h
last_value-In k v o (e ∷ es) h =
    elim (last_value-In k v (if text_eq e.path k then some e.sha256 else o) es h) [
      | inr (d, i, p, s) ↦ inr (d, inr i, p, s)
      | inl here ↦ elim (Bool-cases (text_eq e.path k)) [
        | inl same ↦ inr (e, inl refl, (text_eq_iff e.path k).0 same, ground arith)
        | inr other ↦ inl (ground arith)
      ]
    ]

last_value-kept : (k v : Text) (es : List Entry) → (w : Text) × (last_value k (some v) es ≡ some w)
last_value-kept k v [] = (v, refl)
last_value-kept k v (e ∷ es) = elim (Bool-cases (text_eq e.path k)) [
  | inl same ↦ rw same (last_value-kept k e.sha256 es)
  | inr other ↦ rw other (last_value-kept k v es)
]

In-last_value :
    (e : Entry) (o : Option Text) (es : List Entry)
    → In e es
    → (w : Text) × (last_value e.path o es ≡ some w)
In-last_value e o [] h = absurd h
In-last_value e o (d ∷ es) (inl here) =
    let same : text_eq d.path e.path ≡ true =
      (text_eq_iff d.path e.path).1 (ap (λ x. x.path) (sym here)) in
    rw same (last_value-kept e.path d.sha256 es)
In-last_value e o (d ∷ es) (inr later) =
    In-last_value e (if text_eq d.path e.path then some d.sha256 else o) es later

In-found :
    (k v : Text) (es ds : List Entry)
    → ((e : Entry) → In e ds → In e es)
    → get k (foldl put [] ds) ≡ some v
    → (e : Entry) × In e es × (e.path ≡ k) × (e.sha256 ≡ v)
unfolding get
In-found k v es ds sub h = elim (last_value-In k v none ds (sym (get-last_value k [] ds) ∙ h)) [
  | inl nothing ↦ absurd (ground arith)
  | inr (e, i, p, s) ↦ (e, sub e i, p, s)
]

not_lost :
    (k v : Text) (es ds : List Entry)
    → ((e : Entry) → In e ds → In e es)
    → get k (foldl put [] ds) ≡ some v
    → get k (foldl put [] es) ≡ none
    → ⊥
unfolding get
not_lost k v es ds sub h gone =
    let (e, i, p, _) = In-found k v es ds sub h in
    let (w, found) = In-last_value e none es i in
    let there : last_value k none es ≡ some w =
      subst (λ q. last_value q none es ≡ some w) p found in
    let missing : last_value k none es ≡ none = sym (get-last_value k [] es) ∙ gone in
    ground (arith, there, missing)

-- Two lists with the same entries make maps with the same values.
pub get-put_all :
    (k : Text) (es ds : List Entry)
    → Functional es
    → ((e : Entry) → In e es ↔ In e ds)
    → get k (foldl put [] es) ≡ get k (foldl put [] ds)
get-put_all k es ds f alike = elim (Option-cases (get k (foldl put [] es))) [
  | inl gone ↦ elim (Option-cases (get k (foldl put [] ds))) [
    | inl gone' ↦ gone ∙ sym gone'
    | inr (w, found') ↦ absurd (not_lost k w es ds (λ e. (alike e).1) found' gone)
  ]
  | inr (v, found) ↦ elim (Option-cases (get k (foldl put [] ds))) [
    | inl gone' ↦ absurd (not_lost k v ds es (λ e. (alike e).0) found gone')
    | inr (w, found') ↦
        let (e, i, p, s) = In-found k v es es (λ d x. x) found in
        let (d, i', p', s') = In-found k w es ds (λ x. (alike x).1) found' in
        let same : v ≡ w = sym s ∙ f e d i i' (p ∙ sym p') ∙ s' in found ∙ ap some same ∙ sym found'
  ]
]
