-- ===== src/Walk/Fold.antt =====
-- `walk` below its bound, beside a fold over the hits of the tree.
use pantheon_tools_catalog.Prelude.{
  ℕ, suc, ◌+◌, ◌≤◌, ◌<◌, ◌≡◌, refl, sym, ◌∙◌, true, false, List, [], ◌∷◌, ◌++◌, arith, ltb, leb,
  inl, inr, Bool-cases, Option-cases, length, length-append, foldl, append-nil,
}
use pantheon_tools_catalog.Fs.{
  Metadata, DirEntry, Dir, unlisted, listed, Entries, end, failed, entry, is_dir,
}
use pantheon_tools_catalog.Walk.{Visitor, walk, walk_entries}
use pantheon_tools_catalog.Walk.Spec.{collect, collect_entries}

module _ {S A : Type 0} (step : S → A → S) where
  pub foldl-append :
      (s : S) (xs ys : List A) → foldl step s (xs ++ ys) ≡ foldl step (foldl step s xs) ys
  foldl-append s [] ys = refl
  foldl-append s (x ∷ xs) ys = foldl-append (step s x) xs ys

-- A visitor that folds the hits of its entry, and is full at a size.
pub record Folds {S A : Type 0} (v : Visitor S) (hits : DirEntry → Metadata → List A)
    (step : S → A → S) (size : S → ℕ) (cap : ℕ) : Type 0 where
  pub visits : (e : DirEntry) (m : Metadata) (s : S) → v.visit e m s ≡ foldl step s (hits e m)
  pub full_at : (s : S) → v.full s ≡ leb cap (size s)
  pub grows : (s : S) (a : A) → size (step s a) ≤ size s + 1

module _ {S A : Type 0} {v : Visitor S} {hits : DirEntry → Metadata → List A} {step : S → A → S}
    {size : S → ℕ} {cap : ℕ} (folds : Folds v hits step size cap) (max_depth : ℕ) where
  size-foldl : (s : S) (xs : List A) → size (foldl step s xs) ≤ size s + length xs
  size-foldl s [] = omega arith
  size-foldl s (x ∷ xs) = omega (arith, size-foldl (step s x) xs, folds.grows s x)

  open_at : (s : S) (n : ℕ) → size s + n < cap → v.full s ≡ false
  open_at s n h = folds.full_at s ∙ closed
    where
      closed : leb cap (size s) ≡ false
      closed = ground arith

  fits_first :
      (s : S) (xs ys : List A) → size s + length (xs ++ ys) < cap → size s + length xs < cap
  fits_first s xs ys h = omega (arith, h, length-append xs ys)

  fits_then :
      (s : S) (xs ys : List A)
      → size s + length (xs ++ ys) < cap
      → size (foldl step s xs) + length ys < cap
  fits_then s xs ys h = omega (arith, h, length-append xs ys, size-foldl s xs)

  mutual
    unfolding walk walk_entries collect collect_entries

    pub walk-foldl :
        (d : Dir) (depth : ℕ) (s : S)
        → size s + length (collect hits max_depth d depth) < cap
        → walk v max_depth d depth s ≡ foldl step s (collect hits max_depth d depth)
    walk-foldl unlisted depth s h = refl
    walk-foldl (listed es) depth s h = rw (open_at s _ h) (elim (Bool-cases (ltb max_depth depth)) [
      | inl deep ↦ rw deep refl
      | inr near ↦ rw near (walk_entries-foldl es depth s (rw (collect, near) at h))
    ])

    walk_entries-foldl :
        (es : Entries) (depth : ℕ) (s : S)
        → size s + length (collect_entries hits max_depth es depth) < cap
        → walk_entries v max_depth es depth s
          ≡ foldl step s (collect_entries hits max_depth es depth)
    walk_entries-foldl end depth s h = refl
    walk_entries-foldl (failed es) depth s h = walk_entries-foldl es depth s h
    walk_entries-foldl (entry e d es) depth s h =
        rw (open_at s _ h) (elim (Option-cases e.metadata) [
          | inl q ↦ rw q (walk_entries-foldl es depth s (rw (collect_entries, q) at h))
          | inr (m, q) ↦ elim (Bool-cases (is_dir m)) [
            | inl down ↦
                let here = hits e m in
                let below = collect hits max_depth d (suc depth) in
                let rest = collect_entries hits max_depth es depth in
                let fits : size s + length ((here ++ below) ++ rest) < cap =
                  rw (collect_entries, q, down) at h in
                let inner : walk v max_depth d (suc depth) (v.visit e m s)
                    ≡ foldl step s (here ++ below) =
                  rw (folds.visits e m s) (
                    walk-foldl d (suc depth) (foldl step s here)
                      (fits_then s here below (fits_first s (here ++ below) rest fits))
                    ∙ sym (foldl-append step s here below)) in
                rw (q, down, inner)
                  (walk_entries-foldl es depth (foldl step s (here ++ below))
                      (fits_then s (here ++ below) rest fits)
                    ∙ sym (foldl-append step s (here ++ below) rest))
            | inr plain ↦
                let here = hits e m in
                let rest = collect_entries hits max_depth es depth in
                let fits : size s + length (here ++ rest) < cap =
                  rw (collect_entries, q, plain, append-nil) at h in
                rw (q, plain, append-nil, folds.visits e m s)
                  (walk_entries-foldl es depth (foldl step s here) (fits_then s here rest fits)
                    ∙ sym (foldl-append step s here rest))
          ]
        ])

-- A visitor that folds the hits of its entry until it is full, and a step that changes nothing then.
pub record Absorbs {S A : Type 0} (v : Visitor S) (hits : DirEntry → Metadata → List A)
    (step : S → A → S) : Type 0 where
  pub open_visit :
      (e : DirEntry) (m : Metadata) (s : S)
      → v.full s ≡ false
      → v.visit e m s ≡ foldl step s (hits e m)
  pub full_step : (s : S) (a : A) → v.full s ≡ true → step s a ≡ s

module _ {S A : Type 0} {v : Visitor S} {hits : DirEntry → Metadata → List A} {step : S → A → S}
    (absorbs : Absorbs v hits step) (max_depth : ℕ) where
  foldl-full : (s : S) (xs : List A) → v.full s ≡ true → foldl step s xs ≡ s
  foldl-full s [] h = refl
  foldl-full s (x ∷ xs) h = rw (absorbs.full_step s x h) (foldl-full s xs h)

  mutual
    unfolding walk walk_entries collect collect_entries

    -- The walk is the fold over all hits of the tree.
    pub walk-absorb :
        (d : Dir) (depth : ℕ) (s : S)
        → walk v max_depth d depth s ≡ foldl step s (collect hits max_depth d depth)
    walk-absorb unlisted depth s = refl
    walk-absorb (listed es) depth s = elim (Bool-cases (v.full s)) [
      | inl full ↦
          rw (walk, full) (sym (foldl-full s (collect hits max_depth (listed es) depth) full))
      | inr room ↦ rw room (elim (Bool-cases (ltb max_depth depth)) [
        | inl deep ↦ rw deep refl
        | inr near ↦ rw near (walk_entries-absorb es depth s)
      ])
    ]

    walk_entries-absorb :
        (es : Entries) (depth : ℕ) (s : S)
        → walk_entries v max_depth es depth s
          ≡ foldl step s (collect_entries hits max_depth es depth)
    walk_entries-absorb end depth s = refl
    walk_entries-absorb (failed es) depth s = walk_entries-absorb es depth s
    walk_entries-absorb (entry e d es) depth s = elim (Bool-cases (v.full s)) [
      | inl full ↦
          rw (walk_entries, full)
            (sym (foldl-full s (collect_entries hits max_depth (entry e d es) depth) full))
      | inr room ↦ rw room (elim (Option-cases e.metadata) [
        | inl q ↦ rw q (walk_entries-absorb es depth s)
        | inr (m, q) ↦
            let here = hits e m in
            let rest = collect_entries hits max_depth es depth in
            elim (Bool-cases (is_dir m)) [
              | inl down ↦
                  let below = collect hits max_depth d (suc depth) in
                  let inner : walk v max_depth d (suc depth) (v.visit e m s)
                      ≡ foldl step s (here ++ below) =
                    rw (absorbs.open_visit e m s room) (
                      walk-absorb d (suc depth) (foldl step s here)
                      ∙ sym (foldl-append step s here below)) in
                  rw (q, down, inner)
                    (walk_entries-absorb es depth (foldl step s (here ++ below))
                      ∙ sym (foldl-append step s (here ++ below) rest))
              | inr plain ↦
                  rw (q, plain, append-nil, absorbs.open_visit e m s room)
                    (walk_entries-absorb es depth (foldl step s here)
                      ∙ sym (foldl-append step s here rest))
            ]
      ])
    ]
