-- ===== src/Map.antt =====
-- `BTreeMap<String, V>`: an association list in the order of its keys, which is the order in which
-- the map is iterated.
pub mod Sorted
use pantheon_tools_catalog.Prelude.{
  ℕ, suc, ◌+◌, ◌≤◌, ◌≡◌, refl, Bool, true, false, Option, none, some, List, [], ◌∷◌, arith,
  if◌then◌else◌, length, Ordering,
}
use pantheon_tools_catalog.Text.{Text, text_eq}
use pantheon_tools_catalog.Text.Order.{text_cmp, text_cmp_eq, After-ne, text_eq_iff}

abbrev pub Map {ℓ} : Type ℓ → Type ℓ
Map V = List (Text × V)

module _ {ℓ} {V : Type ℓ} where
  -- `map.get(k)`
  unfoldable pub get : Text → Map V → Option V
  get k [] = none
  get k ((j, v) ∷ m) = if text_eq j k then some v else get k m

  -- `map.contains_key(k)`
  unfoldable pub contains_key : Text → Map V → Bool
  contains_key k [] = false
  contains_key k ((j, v) ∷ m) = if text_eq j k then true else contains_key k m

  -- `map.insert(k, v)`
  unfoldable pub insert : Text → V → Map V → Map V
  insert k v [] = (k, v) ∷ []
  insert k v ((j, w) ∷ m) = elim (text_cmp k j) [
    | Ordering.lt ↦ (k, v) ∷ (j, w) ∷ m
    | Ordering.eq ↦ (k, v) ∷ m
    | Ordering.gt ↦ (j, w) ∷ insert k v m
  ]

  pub get-insert :
      (k i : Text) (v : V) (m : Map V)
      → get i (insert k v m) ≡ (if text_eq k i then some v else get i m)
  unfolding get insert
  get-insert k i v [] = refl
  get-insert k i v ((j, w) ∷ m) = ground (
    arith,
    get-insert k i v m,
    text_cmp_eq k j,
    text_eq_iff k i,
    text_eq_iff j i,
    text_eq_iff k j,
    After-ne k j,
  )

  pub length-insert : (k : Text) (v : V) (m : Map V) → length (insert k v m) ≤ length m + 1
  unfolding insert
  length-insert k v [] = omega arith
  length-insert k v ((j, w) ∷ m) = ground (arith, length-insert k v m)

  pub contains_key-get :
      (k : Text) (m : Map V) → contains_key k m ≡ elim (get k m) [ none ↦ false | some _ ↦ true ]
  unfolding get contains_key
  contains_key-get k [] = refl
  contains_key-get k ((j, v) ∷ m) = ground (arith, contains_key-get k m)
