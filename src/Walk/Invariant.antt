-- ===== src/Walk/Invariant.antt =====
-- Predicates on what `walk` collects.
use pantheon_tools_catalog.Prelude.{
  ℕ, suc, ◌≡◌, false, if◌then◌else◌, if-induction, Option-induction,
}
use pantheon_tools_catalog.Fs.{
  Metadata, DirEntry, Dir, unlisted, listed, Entries, end, failed, entry, is_dir,
}
use pantheon_tools_catalog.Walk.{Visitor, walk, walk_entries}

module _ {ℓ κ} {S : Type ℓ} (v : Visitor S) (max_depth : ℕ) (P : S → Type κ)
    (keep : (e : DirEntry) (m : Metadata) (s : S)
      → v.full s ≡ false
      → P s
      → P (v.visit e m s)) where
  mutual
    unfolding walk walk_entries

    walk_keeps : (d : Dir) (depth : ℕ) (s : S) → P s → P (walk v max_depth d depth s)
    walk_keeps unlisted depth s h = h
    walk_keeps (listed es) depth s h =
        if-induction P _ _ _ (λ _. h) (λ _. walk_entries_keeps es depth s h)

    walk_entries_keeps :
        (es : Entries) (depth : ℕ) (s : S) → P s → P (walk_entries v max_depth es depth s)
    walk_entries_keeps end depth s h = h
    walk_entries_keeps (failed es) depth s h = walk_entries_keeps es depth s h
    walk_entries_keeps (entry e d es) depth s h =
        if-induction P (v.full s) _ _ (λ _. h)
          (λ open_. walk_entries_keeps es depth _ (
            Option-induction P e.metadata s
              (λ m.
                if is_dir m then walk v max_depth d (suc depth) (v.visit e m s) else v.visit e m s)
              (λ _. h)
              (λ m _.
                if-induction P (is_dir m) _ _
                  (λ _. walk_keeps d (suc depth) (v.visit e m s) (keep e m s open_ h))
                  (λ _. keep e m s open_ h))))

  pub walk_induction : (d : Dir) (depth : ℕ) (s : S) → P s → P (walk v max_depth d depth s)
  walk_induction d depth s h = walk_keeps d depth s h
