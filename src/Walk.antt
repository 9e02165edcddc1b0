-- ===== src/Walk.antt =====
-- The bounded walk that the file tools share: `fn walk` of tools/fim-snapshot/src/main.rs, and of
-- fim-diff, fs-find, fs-grep, secret-scan and log-triage, over the state that the tool collects.
pub mod Spec
pub mod Invariant
pub mod Fold
use pantheon_tools_catalog.Prelude.{
  ℕ, suc, Bool, true, false, ◌||◌, Option, none, some, ltb, if◌then◌else◌,
}
use pantheon_tools_catalog.Fs.{
  Metadata, DirEntry, Dir, unlisted, listed, Entries, end, failed, entry, is_dir,
}

-- What differs between the tools: when the walk is over, and what is done at an entry.
pub record Visitor {ℓ} (S : Type ℓ) : Type ℓ where
  pub full : S → Bool
  pub visit : DirEntry → Metadata → S → S

module _ {ℓ} {S : Type ℓ} (v : Visitor S) (max_depth : ℕ) where
  unfoldable mutual
    pub walk : Dir → ℕ → S → S
    walk unlisted depth s = s
    walk (listed es) depth s =
        if v.full s || ltb max_depth depth then s else walk_entries es depth s

    pub walk_entries : Entries → ℕ → S → S
    walk_entries end depth s = s
    walk_entries (failed es) depth s = walk_entries es depth s
    walk_entries (entry e d es) depth s =
        let s' : S = elim e.metadata [
          | none ↦ s
          | some m ↦
              let visited = v.visit e m s in
              if is_dir m then walk d (suc depth) visited else visited
        ] in
        let rest = walk_entries es depth s' in if v.full s then s else rest
