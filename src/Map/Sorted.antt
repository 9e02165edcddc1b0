-- ===== src/Map/Sorted.antt =====
-- The order of the keys of a `BTreeMap`.
use pantheon_tools_catalog.Prelude.{◌≡◌, ◌+◌, refl, ◌∙◌, false, none, some, [], ◌∷◌, arith, length}
use pantheon_tools_catalog.Text.{Text, text_eq}
use pantheon_tools_catalog.Text.Order.{
  text_eq_refl, text_cmp_eq, text_cmp_gt, Before, Before-trans, Before-ne, After-ne, text_eq_comm,
}
use pantheon_tools_catalog.Map.{Map, get, insert}

module _ {ℓ} {V : Type ℓ} where
  abbrev pub Above : Text → Map V → Type 0
  Above k [] = Unit {0}
  Above k ((j, v) ∷ m) = Before k j

  abbrev pub IsSorted : Map V → Type 0
  IsSorted [] = Unit {0}
  IsSorted ((k, v) ∷ m) = Above k m × IsSorted m

  Above-insert : (i k : Text) (v : V) (m : Map V) → Before i k → Above i m → Above i (insert k v m)
  unfolding insert
  Above-insert i k v [] h a = h
  Above-insert i k v ((j, w) ∷ m) h a = ground arith

  pub insert-IsSorted : (k : Text) (v : V) (m : Map V) → IsSorted m → IsSorted (insert k v m)
  unfolding insert
  insert-IsSorted k v [] h = (tt, tt)
  insert-IsSorted k v ((j, w) ∷ m) h = ground (
    arith,
    insert-IsSorted k v m,
    Above-insert j k v m,
    text_cmp_gt k j,
    text_cmp_eq k j,
    h.0,
    h.1,
  )

  -- A key below the first one is not in the map.
  pub get-below : (k : Text) (m : Map V) → Above k m → IsSorted m → get k m ≡ none
  unfolding get
  get-below k [] a h = refl
  get-below k ((j, v) ∷ []) a h = ground (arith, Before-ne k j, text_eq_comm k j)
  get-below k ((j, v) ∷ (i, w) ∷ m) a h =
      let below = get-below k ((i, w) ∷ m) (Before-trans k j i a h.0) h.1 in
      let other : text_eq j k ≡ false = text_eq_comm j k ∙ Before-ne k j a in rw other below

  -- To insert at a key of the map replaces its value.
  pub length-insert_present :
      (k : Text) (w v : V) (m : Map V)
      → IsSorted m
      → get k m ≡ some v
      → length (insert k w m) ≡ length m
  unfolding insert get
  length-insert_present k w v [] h e = absurd (ground arith)
  length-insert_present k w v ((j, x) ∷ m) h e = ground (
    arith,
    length-insert_present k w v m h.1,
    get-below k ((j, x) ∷ m),
    After-ne k j,
    text_eq_comm k j,
  )

  pub length-insert_absent :
      (k : Text) (w : V) (m : Map V) → get k m ≡ none → length (insert k w m) ≡ length m + 1
  unfolding insert get
  length-insert_absent k w [] e = omega arith
  length-insert_absent k w ((j, x) ∷ m) e =
      ground (arith, length-insert_absent k w m, text_cmp_eq k j, text_eq_refl j)
