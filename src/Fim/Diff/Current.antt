-- ===== src/Fim/Diff/Current.antt =====
-- The map that the walk of `fim-diff` makes, and the map that `load_baseline` makes.
use pantheon_tools_catalog.Prelude.{
  ℕ, zero, suc, ◌≤◌, ◌≡◌, false, not, List, [], ◌∷◌, arith, ltb, leb, length, leb-false,
  if-induction, Option-induction, IfOk, IfOk-bind, and_then, ok_or, ensure, ◌*◌,
}
use pantheon_tools_catalog.Text.{Text, codes}
use pantheon_tools_catalog.Serde.{Serde, str_arg}
use pantheon_tools_catalog.Fs.{DirEntry, Metadata, Dir, World, is_file}
use pantheon_tools_catalog.Hash.{Hasher, sha256_file}
use pantheon_tools_catalog.Map.{Map, insert, length-insert}
use pantheon_tools_catalog.Map.Sorted.{IsSorted, insert-IsSorted}
use pantheon_tools_catalog.Walk.Invariant.{walk_induction}
use pantheon_tools_catalog.Fim.Diff.{Ctx, visit, visitor, walk, name_passes}
use pantheon_tools_catalog.Fim.Diff.Baseline.{
  field, read_json, read_entries, load_entries, load_level, load_baseline, indirection,
}

-- The walk keeps the map in order and within `max_files`.
abbrev pub Bounded : Ctx → Map Text → Type 0
Bounded ctx m = IsSorted m × (length m ≤ ctx.max_files)

visit-Bounded :
    (h : Hasher) (ctx : Ctx) (e : DirEntry) (m : Metadata) (out : Map Text)
    → leb ctx.max_files (length out) ≡ false
    → Bounded ctx out
    → Bounded ctx (visit h ctx e m out)
unfolding visit
visit-Bounded h ctx e m out open_ (s, b) =
    if-induction P (is_file m) _ _
      (λ _.
        if-induction P (name_passes ctx.name_glob e.file_name) _ _
          (λ _.
            if-induction P (ltb ctx.max_file_bytes m.len) _ _ (λ _. (s, b))
              (λ _.
                Option-induction P (sha256_file h e) out (λ d. insert e.path d out) (λ _. (s, b))
                  (λ d _. (
                    insert-IsSorted e.path d out s,
                    omega (arith, leb-false, open_, length-insert e.path d out),
                  ))))
          (λ _. (s, b)))
      (λ _. (s, b))
  where
    P : Map Text → Type 0
    P = Bounded ctx

-- The paths of the snapshot stand in strict order, none twice, and there are at most `max_files`.
pub walk-Bounded : (h : Hasher) (ctx : Ctx) (d : Dir) → Bounded ctx (walk h ctx d 0 [])
unfolding walk
walk-Bounded h ctx d =
    walk_induction (visitor h ctx) ctx.max_depth (Bounded ctx) (visit-Bounded h ctx) d 0 []
      (tt, omega arith)

module _ (j : Serde) where
  read_entries-IsSorted :
      (i : ℕ) (items : List j.Value) (m : Map Text)
      → IsSorted m
      → IfOk IsSorted (read_entries j i items m)
  unfolding read_entries
  read_entries-IsSorted i [] m s = s
  read_entries-IsSorted i (item ∷ items) m s =
      Option-induction (IfOk IsSorted) (str_arg j item "path") _ _ (λ _. tt)
        (λ p _.
          Option-induction (IfOk IsSorted) (str_arg j item "sha256") _ _ (λ _. tt)
            (λ d _. read_entries-IsSorted (suc i) items (insert p d m) (insert-IsSorted p d m s)))

  load_entries-IsSorted : (v : j.Value) → IfOk IsSorted (load_entries j v)
  unfolding load_entries
  load_entries-IsSorted v =
      IfOk-bind IsSorted _ (λ arr. read_entries j 0 arr [])
        (λ arr. read_entries-IsSorted 0 arr [] tt)

  load_level-IsSorted : (w : World) (fuel : ℕ) (v : j.Value) → IfOk IsSorted (load_level j w fuel v)
  unfolding load_level
  load_level-IsSorted w zero v = tt
  load_level-IsSorted w (suc fuel) v =
      Option-induction (IfOk IsSorted) (and_then (field j v (codes "path")) j.as_str) _ _
        (λ _. load_entries-IsSorted v)
        (λ p _. IfOk-bind IsSorted (ok_or (w.file_at p).stat _) _ λ meta.
          IfOk-bind IsSorted (ensure (is_file meta) _) _ λ _.
            IfOk-bind IsSorted (ensure (not (ltb (64 * 1048576) meta.len)) _) _ λ _.
              IfOk-bind IsSorted (read_json j p (w.file_at p).contents) _ λ doc.
                IfOk-bind IsSorted (ensure _ (indirection p)) _ λ _. load_level-IsSorted w fuel doc)

  -- Whatever form the baseline has, a map that is loaded has its paths in strict order, each once.
  pub load_baseline-IsSorted : (w : World) (v : j.Value) → IfOk IsSorted (load_baseline j w v)
  unfolding load_baseline
  load_baseline-IsSorted w v = load_level-IsSorted w 2 v
