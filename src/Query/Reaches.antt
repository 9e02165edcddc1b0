-- ===== src/Query/Reaches.antt =====
-- Where a path leads, as a relation on the values of the document.
use pantheon_tools_catalog.Prelude.{
  ℕ, zero, suc, ◌≡◌, ◌↔◌, ◌⊎◌, inl, inr, refl, sym, ap, ◌∙◌, true, not, Option, none, some, List,
  [], ◌∷◌, ◌++◌, length, retain, is_empty, get_elem?, ◌==◌, Bool-cases, Option-cases, arith,
}
use pantheon_tools_catalog.Text.{Text, split, parse_uint}
use pantheon_tools_catalog.Serde.{Serde, usize_mod}
use pantheon_tools_catalog.Query.{descend, follow, navigate, is_dot}
use pantheon_tools_catalog.Query.Compose.{navigate-follow}

-- The segments of a path, without the empty ones.
abbrev pub segments : Text → List Text
segments q = retain (λ s. not (is_empty s)) (split (λ c. c == b'.') q)

-- The item that stands after `i` others.
abbrev pub ItemAt : {A : Type 0} → List A → ℕ → A → Type 0
ItemAt {A} xs i x =
    (before : List A) × (after : List A) × (xs ≡ before ++ x ∷ after) × (length before ≡ i)

module _ {A : Type 0} where
  some-injective : {a b : A} → some a ≡ some b → a ≡ b
  some-injective h = ground (arith, h)

  get_elem?-ItemAt : (xs : List A) (i : ℕ) (x : A) → get_elem? xs i ≡ some x → ItemAt xs i x
  get_elem?-ItemAt [] i x h = absurd (ground (arith, h))
  get_elem?-ItemAt (y ∷ ys) zero x h = ([], ys, ap (λ z. z ∷ ys) (some-injective h), refl)
  get_elem?-ItemAt (y ∷ ys) (suc i) x h =
      let (before, after, e, n) = get_elem?-ItemAt ys i x h in
      (y ∷ before, after, ap (λ l. y ∷ l) e, ap suc n)

  get_elem?-middle :
      (before after : List A) (x : A) → get_elem? (before ++ x ∷ after) (length before) ≡ some x
  get_elem?-middle [] after x = refl
  get_elem?-middle (y ∷ before) after x = get_elem?-middle before after x

module _ (j : Serde) where
  open j use {Value, as_array, is_object, get}

  -- One segment leads from a value to another: in an array it is the number of an item, in an object
  -- the key of a member.
  abbrev pub Step : Value → Text → Value → Type 0
  Step v seg w =
      ((items : List Value) × (i : ℕ) × (as_array v ≡ some items)
        × (parse_uint usize_mod seg ≡ some i)
        × ItemAt items i w)
      ⊎ ((as_array v ≡ none) × (is_object v ≡ true) × (get v seg ≡ some w))

  abbrev pub Reaches : Value → List Text → Value → Type 0
  Reaches v [] w = v ≡ w
  Reaches v (seg ∷ segs) w = (u : Value) × Step v seg u × Reaches u segs w

  absent : {A : Type 0} {o : Option A} {a : A} → o ≡ none → o ≡ some a → ⊥
  absent e h = ground (arith, sym e ∙ h)

  at_index :
      (items : List Value) (o : Option ℕ) (w : Value)
      → (elim o [ some i ↦ get_elem? items i | none ↦ none ] ≡ some w)
        ↔ ((i : ℕ) × (o ≡ some i) × ItemAt items i w)
  at_index items none w = (λ h. absurd (ground (arith, h)), λ (i, e, _). absurd (ground (arith, e)))
  at_index items (some i) w = (
    λ h. (i, refl, get_elem?-ItemAt items i w h),
    λ (k, e, (before, after, parts, n)).
        ap (get_elem? items) (some-injective e ∙ sym n)
        ∙ ap (λ l. get_elem? l (length before)) parts
        ∙ get_elem?-middle before after w,
  )

  descend-Step : (v : Value) (seg : Text) (w : Value) → (descend j v seg ≡ some w) ↔ Step v seg w
  unfolding descend
  descend-Step v seg w = elim (Option-cases (as_array v)) [
    | inr (items, e) ↦
        let (to, from) = at_index items (parse_uint usize_mod seg) w in
        rw (descend, e)
          (
            λ h. let (i, number, at) = to h in inl (items, i, refl, number, at),
            elim [
              | inl (items', i, same, number, at) ↦ from (i, number, rw (some-injective same) at)
              | inr (none_, _, _) ↦ absurd (ground (arith, none_))
            ],
          )
    | inl e ↦ elim (Bool-cases (is_object v)) [
      | inl object ↦
          rw (descend, e, object)
            (
              λ h. inr (refl, refl, h),
              elim [ inl (_, _, some_, _, _) ↦ absurd (ground (arith, some_)) | inr (_, _, h) ↦ h ],
            )
      | inr other ↦
          rw (descend, e, other)
            (
              λ h. absurd (ground (arith, h)),
              elim [
                | inl (_, _, some_, _, _) ↦ absurd (ground (arith, some_))
                | inr (_, object, _) ↦ absurd (ground (arith, object))
              ],
            )
    ]
  ]

  follow-Reaches :
      (v : Value) (segs : List Text) (w : Value)
      → (follow j v segs ≡ some w) ↔ Reaches v (retain (λ s. not (is_empty s)) segs) w
  unfolding follow
  follow-Reaches v [] w = (λ h. some-injective h, λ e. ap some e)
  follow-Reaches v ([] ∷ segs) w = follow-Reaches v segs w
  follow-Reaches v ((c ∷ s) ∷ segs) w = elim (Option-cases (descend j v (c ∷ s))) [
    | inl gone ↦
        rw (follow, gone)
          (
            λ h. absurd (ground (arith, h)),
            λ (u, step, _). absurd (absent gone ((descend-Step v (c ∷ s) u).1 step)),
          )
    | inr (u, found) ↦
        let (to, from) = follow-Reaches u segs w in
        rw (follow, found)
          (
            λ h. (u, (descend-Step v (c ∷ s) u).0 found, to h),
            λ (x, step, rest).
                from (rw (some-injective (sym found ∙ (descend-Step v (c ∷ s) x).1 step)) rest),
          )
  ]

  -- For each JSON value, path and value: navigation gives the value exactly if the segments of the
  -- path, empty ones left out, lead to it one after the other, in an array by the number of the item
  -- that has as many others before it, in an object by the key.
  pub navigate-Reaches :
      (v : Value) (q : Text) (w : Value) → (navigate j v q ≡ some w) ↔ Reaches v (segments q) w
  unfolding is_dot
  navigate-Reaches v q w = rw (navigate-follow j v q) (follow-Reaches v (split is_dot q) w)
