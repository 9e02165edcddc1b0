-- ===== src/Inspect/Inventory/Reported.antt =====
-- What package-drift reports, in whatever order the maps are iterated.
use pantheon_tools_catalog.Prelude.{
  ◌≡◌, ◌↔◌, refl, sym, subst, ap₂, false, not, Option, none, some, [], ◌∷◌, ◌++◌, append-nil,
  append_assoc, filter_map, In, In-filter_map, if◌then◌else◌, arith, Option-cases, inl, inr,
}
use pantheon_tools_catalog.Text.{Text, text_eq}
use pantheon_tools_catalog.Map.{Map, get, contains_key, contains_key-get}
use pantheon_tools_catalog.Inspect.Inventory.{
  PackageDrift, drift_one, drift_installed, drift_golden, package_drift,
}

-- What a `HashMap` documents: an iteration meets each entry, and nothing else.
abbrev pub Iterates : (Map Text → Map Text) → Type 0
Iterates order = (m : Map Text) (x : Text × Text) → In x (order m) ↔ In x m

abbrev pub absent : Map Text → Text × Text → Option (Text × Text)
absent b (k, v) = elim (get k b) [ none ↦ some (k, v) | some _ ↦ none ]

abbrev pub differs : Map Text → Text × Text → Option (Text × (Text × Text))
differs b (k, v) = elim (get k b) [
  | none ↦ none
  | some old ↦ if not (text_eq old v) then some (k, (old, v)) else none
]

record Scanned (gold m : Map Text) (d d' : PackageDrift) : Type 0 where
  added : d'.added ≡ d.added ++ filter_map (absent gold) m
  removed : d'.removed ≡ d.removed
  changed : d'.changed ≡ d.changed ++ filter_map (differs gold) m

drift_installed-Scanned :
    (gold m : Map Text) (d : PackageDrift) → Scanned gold m d (drift_installed gold m d)
unfolding drift_installed drift_one
drift_installed-Scanned gold [] d = record {
  added = sym (append-nil d.added);
  removed = refl;
  changed = sym (append-nil d.changed);
}
drift_installed-Scanned gold ((k, v) ∷ m) d =
    let next = drift_installed-Scanned gold m (drift_one gold k v d) in
    record {
      added =
          ground
            (arith, next.added, append_assoc d.added ((k, v) ∷ []) (filter_map (absent gold) m));
      removed = ground (arith, next.removed);
      changed = elim (Option-cases (get k gold)) [
        | inl q ↦ ground (arith, q, next.changed)
        | inr (old, q) ↦ ground (
          arith,
          q,
          next.changed,
          append_assoc d.changed ((k, (old, v)) ∷ []) (filter_map (differs gold) m),
        )
      ];
    }

record Removed (inst m : Map Text) (d d' : PackageDrift) : Type 0 where
  added : d'.added ≡ d.added
  removed : d'.removed ≡ d.removed ++ filter_map (absent inst) m
  changed : d'.changed ≡ d.changed

drift_golden-Removed :
    (inst m : Map Text) (d : PackageDrift) → Removed inst m d (drift_golden inst m d)
unfolding drift_golden
drift_golden-Removed inst [] d = record {
  added = refl;
  removed = sym (append-nil d.removed);
  changed = refl;
}
drift_golden-Removed inst ((k, v) ∷ m) d =
    let d' =
      if not (contains_key k inst) then record d { removed = d.removed ++ (k, v) ∷ [] } else d in
    let next = drift_golden-Removed inst m d' in
    record {
      added = ground (arith, next.added);
      removed = ground (
        arith,
        next.removed,
        append_assoc d.removed ((k, v) ∷ []) (filter_map (absent inst) m),
        contains_key-get k inst,
      );
      changed = ground (arith, next.changed);
    }

absent_iff :
    (b : Map Text) (x y : Text × Text) → (absent b x ≡ some y) ↔ ((get x.0 b ≡ none) × (x ≡ y))
absent_iff b (k, v) y = ground arith

differs_iff :
    (b : Map Text) (k v n old new : Text)
    → (differs b (k, v) ≡ some (n, (old, new)))
      ↔ ((get k b ≡ some old) × (text_eq old v ≡ false) × (k ≡ n) × (v ≡ new))
differs_iff b k v n old new = ground arith

module _ (b m : Map Text) (order : Map Text → Map Text) (law : Iterates order) where
  pub In-absent :
      (x : Text × Text) → In x (filter_map (absent b) (order m)) ↔ (In x m × (get x.0 b ≡ none))
  In-absent x =
      let (to, from) = In-filter_map x (absent b) (order m) in
      (
        λ h.
            let (y, i, e) = to h in
            let (gone, same) = (absent_iff b y x).0 e in
            (subst (λ z. In z m) same ((law m y).0 i), subst (λ z. get z.0 b ≡ none) same gone),
        λ (i, gone). from (x, (law m x).1 i, (absent_iff b x x).1 (gone, refl)),
      )

  pub In-differs :
      (n old new : Text)
      → In (n, (old, new)) (filter_map (differs b) (order m))
        ↔ (In (n, new) m × (get n b ≡ some old) × (text_eq old new ≡ false))
  In-differs n old new =
      let (to, from) = In-filter_map (n, (old, new)) (differs b) (order m) in
      (
        λ h.
            let ((k, v), i, e) = to h in
            let (found, other, same, value) = (differs_iff b k v n old new).0 e in
            (
              subst (λ z. In z m) (ap₂ (λ p q. (p, q)) same value) ((law m (k, v)).0 i),
              subst (λ z. get z b ≡ some old) same found,
              subst (λ z. text_eq old z ≡ false) value other,
            ),
        λ (i, found, other). from (
          (n, new),
          (law m (n, new)).1 i,
          (differs_iff b n new n old new).1 (found, other, refl, refl),
        ),
      )

-- In whatever order an iteration meets the entries of a map, all of them and no other, package-
-- drift reports a package as added exactly if it is installed and the golden list lacks it, as
-- removed exactly if it is golden and not installed, and as changed, with both versions, exactly
-- if it is in both and the versions differ.
pub package_drift-In :
    (order : Map Text → Map Text)
    → Iterates order
    → (inst gold : Map Text) (n v old new : Text)
    → (In (n, v) (package_drift order inst gold).added ↔ (In (n, v) inst × (get n gold ≡ none)))
      × (In (n, v) (package_drift order inst gold).removed ↔ (In (n, v) gold × (get n inst ≡ none)))
      × (In (n, (old, new)) (package_drift order inst gold).changed
          ↔ (In (n, new) inst × (get n gold ≡ some old) × (text_eq old new ≡ false)))
unfolding package_drift
package_drift-In order law inst gold n v old new =
    let first : PackageDrift = record { added = []; removed = []; changed = [] } in
    let a = drift_installed-Scanned gold (order inst) first in
    let r = drift_golden-Removed inst (order gold) (drift_installed gold (order inst) first) in
    (
      rw (r.added, a.added) (In-absent gold inst order law (n, v)),
      rw (r.removed, a.removed) (In-absent inst gold order law (n, v)),
      rw (r.changed, a.changed) (In-differs gold inst order law n old new),
    )
