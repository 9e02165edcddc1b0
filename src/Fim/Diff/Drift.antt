-- ===== src/Fim/Diff/Drift.antt =====
-- What the report of `fim-diff` says of the two maps.
use pantheon_tools_catalog.Prelude.{
  ℕ, ◌+◌, ◌≡◌, refl, sym, ◌∙◌, ap, not, Option, none, some, [], ◌∷◌, ◌++◌, if◌then◌else◌, arith,
  append-nil, append_assoc, length, Option-cases, inl, inr,
}
use pantheon_tools_catalog.Text.{Text, text_eq}
use pantheon_tools_catalog.Text.Order.{text_eq_iff}
use pantheon_tools_catalog.Map.{Map, get, contains_key, contains_key-get}
use pantheon_tools_catalog.Map.Sorted.{IsSorted, get-below}
use pantheon_tools_catalog.Fim.Diff.Compare.{
  Report, compare_one, compare_current, compare_baseline, compare,
}

abbrev pub if_absent {ℓ κ} : {A : Type ℓ} {B : Type κ} → Option A → B → B → B
if_absent none x y = x
if_absent (some _) x y = y

-- The entries of `m` whose path `b` lacks.
abbrev only_in : Map Text → Map Text → Map Text
only_in b [] = []
only_in b ((p, s) ∷ m) = if_absent (get p b) ((p, s) ∷ only_in b m) (only_in b m)

abbrev pub change : Option Text → Text → Option (Text × Text)
change none s = none
change (some old) s = if not (text_eq old s) then some (old, s) else none

abbrev changed_in : Map Text → Map Text → Map (Text × Text)
changed_in b [] = []
changed_in b ((p, s) ∷ m) = elim (change (get p b) s) [
  | none ↦ changed_in b m
  | some c ↦ (p, c) ∷ changed_in b m
]

abbrev same : Option Text → Text → ℕ
same none s = 0
same (some old) s = if text_eq old s then 1 else 0

abbrev count_same : Map Text → Map Text → ℕ
count_same b [] = 0
count_same b ((p, s) ∷ m) = same (get p b) s + count_same b m

record Adds (b m : Map Text) (r r' : Report) : Type 0 where
  added : r'.added ≡ r.added ++ only_in b m
  removed : r'.removed ≡ r.removed
  modified : r'.modified ≡ r.modified ++ changed_in b m
  unchanged : r'.unchanged ≡ r.unchanged + count_same b m

compare_current-Adds : (b m : Map Text) (r : Report) → Adds b m r (compare_current b m r)
unfolding compare_current
compare_current-Adds b [] r = record {
  added = sym (append-nil _);
  removed = refl;
  modified = sym (append-nil _);
  unchanged = ground arith;
}
compare_current-Adds b ((p, s) ∷ m) r =
    let next = compare_current-Adds b m (compare_one b p s r) in
    record {
      added = ground (arith, next.added, append_assoc r.added ((p, s) ∷ []) (only_in b m));
      removed = ground (arith, next.removed);
      modified = elim (Option-cases (get p b)) [
        | inl q ↦ ground (arith, q, next.modified)
        | inr (old, q) ↦
            ground (
              arith,
              q,
              next.modified,
              append_assoc r.modified ((p, (old, s)) ∷ []) (changed_in b m),
            )
      ];
      unchanged = ground (arith, next.unchanged);
    }

record Removes (c m : Map Text) (r r' : Report) : Type 0 where
  added : r'.added ≡ r.added
  removed : r'.removed ≡ r.removed ++ only_in c m
  modified : r'.modified ≡ r.modified
  unchanged : r'.unchanged ≡ r.unchanged

compare_baseline-Removes : (c m : Map Text) (r : Report) → Removes c m r (compare_baseline c m r)
unfolding compare_baseline
compare_baseline-Removes c [] r = record {
  added = refl;
  removed = sym (append-nil _);
  modified = refl;
  unchanged = refl;
}
compare_baseline-Removes c ((p, s) ∷ m) r =
    let r' =
      if not (contains_key p c) then record r { removed = r.removed ++ (p, s) ∷ [] } else r in
    let next = compare_baseline-Removes c m r' in
    record {
      added = ground (arith, next.added);
      removed = ground (
        arith,
        next.removed,
        append_assoc r.removed ((p, s) ∷ []) (only_in c m),
        contains_key-get p c,
      );
      modified = ground (arith, next.modified);
      unchanged = ground (arith, next.unchanged);
    }

record Compares (c b : Map Text) (r : Report) : Type 0 where
  added : r.added ≡ only_in b c
  removed : r.removed ≡ only_in c b
  modified : r.modified ≡ changed_in b c
  unchanged : r.unchanged ≡ count_same b c

compare-Compares : (c b : Map Text) → Compares c b (compare c b)
unfolding compare
compare-Compares c b =
    let first : Report = record { added = []; removed = []; modified = []; unchanged = 0 } in
    let a = compare_current-Adds b c first in
    let d = compare_baseline-Removes c b (compare_current b c first) in
    record {
      added = d.added ∙ a.added;
      removed = d.removed ∙ ap (λ (l : Map Text). l ++ only_in c b) a.removed;
      modified = d.modified ∙ a.modified;
      unchanged = d.unchanged ∙ a.unchanged ∙ (omega arith);
    }

get-only_in : (k : Text) (b m : Map Text) → get k (only_in b m) ≡ if_absent (get k b) (get k m) none
unfolding get
get-only_in k b [] = ground arith
get-only_in k b ((j, s) ∷ m) = ground (arith, get-only_in k b m, text_eq_iff j k)

abbrev pub change_of : Option Text → Option Text → Option (Text × Text)
change_of o none = none
change_of o (some s) = change o s

get-changed_in_absent : (k : Text) (b m : Map Text) → get k m ≡ none → get k (changed_in b m) ≡ none
unfolding get
get-changed_in_absent k b [] h = refl
get-changed_in_absent k b ((j, s) ∷ m) h = ground (arith, get-changed_in_absent k b m)

get-changed_in :
    (k : Text) (b m : Map Text)
    → IsSorted m
    → get k (changed_in b m) ≡ change_of (get k b) (get k m)
unfolding get
get-changed_in k b [] h = ground arith
get-changed_in k b ((j, s) ∷ m) h =
    ground
      (arith, get-changed_in k b m, text_eq_iff j k, get-below j m, get-changed_in_absent k b m)

-- Where the paths of the tree stand in strict order, for each path: it is reported as added with
-- its digest exactly if only the tree has it, as removed exactly if only the baseline has it,
-- and as modified, with both digests, exactly if both have it and the digests differ.
pub compare-get :
    (current baseline : Map Text) (k : Text)
    → IsSorted current
    → (get k (compare current baseline).added ≡ if_absent (get k baseline) (get k current) none)
      × (get k (compare current baseline).removed ≡ if_absent (get k current) (get k baseline) none)
      × (get k (compare current baseline).modified ≡ change_of (get k baseline) (get k current))
compare-get c b k h =
    let r = compare-Compares c b in
    (
      ap (get k) r.added ∙ get-only_in k b c,
      ap (get k) r.removed ∙ get-only_in k c b,
      ap (get k) r.modified ∙ get-changed_in k b c h,
    )

-- Every path of the tree is counted once: as added, as modified or as unchanged.
pub compare-counts :
    (current baseline : Map Text)
    → length (compare current baseline).added
        + length (compare current baseline).modified
        + (compare current baseline).unchanged
      ≡ length current
compare-counts c b = let r = compare-Compares c b in rw (r.added, r.modified, r.unchanged) (count c)
  where
    count :
        (m : Map Text) → length (only_in b m) + length (changed_in b m) + count_same b m ≡ length m
    count [] = omega arith
    count ((p, s) ∷ m) = ground (arith, count m)
