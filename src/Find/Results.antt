-- ===== src/Find/Results.antt =====
-- What `fs-find` returns.
use pantheon_tools_catalog.Prelude.{
  ℕ, ◌+◌, ◌%◌, ◌≤◌, ◌<◌, ◌≡◌, refl, sym, ◌∙◌, false, List, [], ◌∷◌, ◌++◌, arith, length, take,
  take_all, cut-one_more, length-append, length-take, append-nil, ltb, if◌then◌else◌,
}
use pantheon_tools_catalog.Text.{Text}
use pantheon_tools_catalog.Serde.{usize_mod}
use pantheon_tools_catalog.Fs.{DirEntry, Metadata, Dir}
use pantheon_tools_catalog.Walk.Spec.{collect, Lists, walk-collect}
use pantheon_tools_catalog.Find.{Filter, Found, found, passes, visit, visitor, walk, find}

abbrev pub hits : Filter → DirEntry → Metadata → List Found
hits f e m = if passes f e m then found e m ∷ [] else []

-- All entries of the tree that pass the filter, down to the depth, in the order of the walk.
abbrev pub matching : ℕ → Filter → Dir → List Found
matching max_depth f d = collect (hits f) max_depth d 0

visit-hits :
    (f : Filter) (e : DirEntry) (m : Metadata) (out : List Found)
    → visit f e m out ≡ out ++ hits f e m
unfolding visit
visit-hits f e m out = ground (arith, append-nil out)

length-hits : (f : Filter) (e : DirEntry) (m : Metadata) → length (hits f e m) ≤ 1
length-hits f e m = ground arith

pub visitor-Lists : (f : Filter) (cap : ℕ) → Lists (visitor f cap) (hits f) cap
visitor-Lists f cap = record {
  full_at = λ out. refl;
  appends = λ e m out room.
      visit-hits f e m out
      ∙ sym (
          take_all cap (out ++ hits f e m)
            (omega (arith, length-append out (hits f e m), length-hits f e m)));
}

walk-matching :
    (max_depth : ℕ) (f : Filter) (cap : ℕ) (d : Dir)
    → walk max_depth f cap d 0 [] ≡ take cap (matching max_depth f d)
unfolding walk
walk-matching max_depth f cap d = walk-collect (visitor-Lists f cap) max_depth d 0

-- Where `max_results + 1` fits in a `usize`, the results are the first `max_results` matching
-- entries of the tree, and `truncated` says exactly whether there are more.
pub find-matching :
    (root : Text) (max_depth max_results : ℕ) (f : Filter) (d : Dir)
    → max_results + 1 < usize_mod
    → ((find root max_depth max_results f d).results ≡ take max_results (matching max_depth f d))
      × ((find root max_depth max_results f d).truncated
          ≡ ltb max_results (length (matching max_depth f d)))
unfolding find
find-matching root max_depth n f d h =
    let e : (n + 1) % usize_mod ≡ n + 1 = omega arith in
    let w = walk-matching max_depth f (n + 1) d in
    (
      rw (e, w) (cut-one_more n (matching max_depth f d)),
      rw (e, w) (ground (arith, length-take (n + 1) (matching max_depth f d))),
    )

-- At the largest `usize` the bound wraps around to 0: nothing is listed, and `truncated` is not set.
pub find-max_usize :
    (root : Text) (max_depth : ℕ) (f : Filter) (d : Dir)
    → ((find root max_depth 4294967295 f d).results ≡ [])
      × ((find root max_depth 4294967295 f d).truncated ≡ false)
unfolding find
find-max_usize root max_depth f d = rw (walk-matching max_depth f 0 d) (refl, refl)
