-- ===== src/Walk/Spec.antt =====
-- The listing of a tree, which `walk` is compared with.
use pantheon_tools_catalog.Prelude.{
  ℕ, suc, ◌≤◌, ◌<◌, ◌≡◌, sym, ◌∙◌, ap, true, false, none, some, List, [], ◌++◌, arith, ltb, leb,
  if◌then◌else◌, inl, inr, Bool-cases, Option-cases, length, take, take_all, take_full,
  take-append-take, length-take, append-nil, append_assoc,
}
use pantheon_tools_catalog.Fs.{
  Metadata, DirEntry, Dir, unlisted, listed, Entries, end, failed, entry, is_dir,
}
use pantheon_tools_catalog.Walk.{Visitor, walk, walk_entries}

module _ {ℓ} {A : Type ℓ} (hits : DirEntry → Metadata → List A) (max_depth : ℕ) where
  unfoldable mutual
    pub collect : Dir → ℕ → List A
    collect unlisted depth = []
    collect (listed es) depth = if ltb max_depth depth then [] else collect_entries es depth

    pub collect_entries : Entries → ℕ → List A
    collect_entries end depth = []
    collect_entries (failed es) depth = collect_entries es depth
    collect_entries (entry e d es) depth =
        let here : List A = elim e.metadata [
          | none ↦ []
          | some m ↦ hits e m ++ (if is_dir m then collect d (suc depth) else [])
        ] in
        here ++ collect_entries es depth

-- A visitor that lists hits: it is full at `cap`, and a visit appends the hits of its entry.
pub record Lists {ℓ} {A : Type ℓ} (v : Visitor (List A)) (hits : DirEntry → Metadata → List A)
    (cap : ℕ) : Type ℓ where
  pub full_at : (out : List A) → v.full out ≡ leb cap (length out)
  pub appends :
      (e : DirEntry) (m : Metadata) (out : List A)
      → length out < cap
      → v.visit e m out ≡ take cap (out ++ hits e m)

module _ {ℓ} {A : Type ℓ} {v : Visitor (List A)} {hits : DirEntry → Metadata → List A} {cap : ℕ}
    (lists : Lists v hits cap) (max_depth : ℕ) where
  abbrev Cut : List A → List A → List A → Type ℓ
  Cut out found result = result ≡ take cap (out ++ found)

  Cut-full :
      (out found : List A) → length out ≤ cap → leb cap (length out) ≡ true → Cut out found out
  Cut-full out found h f = sym (take_full cap out found (omega (arith, full)) ∙ take_all cap out h)
    where
      full : cap ≤ length out
      full = ground arith

  Cut-empty : (out : List A) → length out ≤ cap → Cut out [] out
  Cut-empty out h = rw append-nil (sym (take_all cap out h))

  length-cut : (xs : List A) → length (take cap xs) ≤ cap
  length-cut xs = omega (arith, length-take cap xs)

  Cut-then :
      (out a b mid result : List A) → Cut out a mid → Cut mid b result → Cut out (a ++ b) result
  Cut-then out a b mid result h k =
      k ∙ (rw h (take-append-take cap (out ++ a) b ∙ ap (take cap) (append_assoc out a b)))

  room : (out : List A) → leb cap (length out) ≡ false → length out < cap
  room out f = ground arith

  mutual
    unfolding walk walk_entries collect collect_entries

    walk-Cut :
        (d : Dir) (depth : ℕ) (out : List A)
        → length out ≤ cap
        → Cut out (collect hits max_depth d depth) (walk v max_depth d depth out)
    walk-Cut unlisted depth out h = Cut-empty out h
    walk-Cut (listed es) depth out h = elim (Bool-cases (v.full out)) [
      | inl f ↦ rw f (Cut-full out _ h (sym (lists.full_at out) ∙ f))
      | inr o ↦ rw o (elim (Bool-cases (ltb max_depth depth)) [
        | inl deep ↦ rw deep (Cut-empty out h)
        | inr near ↦ rw near (walk_entries-Cut es depth out h)
      ])
    ]

    walk_entries-Cut :
        (es : Entries) (depth : ℕ) (out : List A)
        → length out ≤ cap
        → Cut out (collect_entries hits max_depth es depth) (walk_entries v max_depth es depth out)
    walk_entries-Cut end depth out h = Cut-empty out h
    walk_entries-Cut (failed es) depth out h = walk_entries-Cut es depth out h
    walk_entries-Cut (entry e d es) depth out h = elim (Bool-cases (v.full out)) [
      | inl f ↦ rw f (Cut-full out _ h (sym (lists.full_at out) ∙ f))
      | inr o ↦ rw o (elim (Option-cases e.metadata) [
        | inl q ↦ rw q (walk_entries-Cut es depth out h)
        | inr (m, q) ↦ rw q (
            let visit_out = v.visit e m out in
            let visited = lists.appends e m out (room out (sym (lists.full_at out) ∙ o)) in
            let fits : length visit_out ≤ cap = rw visited (length-cut _) in
            elim (Bool-cases (is_dir m)) [
              | inl down ↦ rw down (
                  let below = walk-Cut d (suc depth) visit_out fits in
                  let both = Cut-then out (hits e m) _ visit_out _ visited below in
                  let fits' : length (walk v max_depth d (suc depth) visit_out) ≤ cap =
                    rw below (length-cut _) in
                  Cut-then out _ _ _ _ both (walk_entries-Cut es depth _ fits'))
              | inr plain ↦ rw plain (
                  rw append-nil (
                    Cut-then out (hits e m) _ visit_out _ visited
                      (walk_entries-Cut es depth visit_out fits)))
            ])
      ])
    ]

  -- With a visitor that appends the hits of an entry and is full at a bound, a walk from nothing gives
  -- the hits of the tree down to the depth, in order, cut at the bound.
  pub walk-collect :
      (d : Dir) (depth : ℕ)
      → walk v max_depth d depth [] ≡ take cap (collect hits max_depth d depth)
  walk-collect d depth = walk-Cut d depth [] (omega arith)
