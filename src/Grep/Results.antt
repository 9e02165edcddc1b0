-- ===== src/Grep/Results.antt =====
-- What `fs-grep` returns.
use pantheon_tools_catalog.Prelude.{
  ℕ, suc, ◌+◌, ◌-◌, ◌%◌, ◌≤◌, ◌<◌, ◌≡◌, refl, sym, ◌∙◌, ap, false, ◌&&◌, none, some, List, [], ◌∷◌,
  ◌++◌, arith, length, take, take_all, take_full, cut-one_more, length-append, length-take,
  append-nil, append_assoc, leb, ltb, if◌then◌else◌, Bool-cases, inl, inr, Option-cases, leb→le,
  leb-false,
}
use pantheon_tools_catalog.Text.{Text, lines}
use pantheon_tools_catalog.Serde.{usize_mod}
use pantheon_tools_catalog.Fs.{DirEntry, Metadata, Dir, Contents, unreadable, binary, text, is_file}
use pantheon_tools_catalog.Walk.Spec.{collect, Lists, walk-collect}
use pantheon_tools_catalog.Grep.{
  Ctx, Match, name_passes, scan_lines, scan_text, scan_file, visit, visitor, walk, grep,
}

abbrev match_at : Text → ℕ → Text → Match
match_at path i line = record { path = path; line = suc i; shown = take 2000 line }

module _ (ctx : Ctx) where
  -- The matching lines of a text, numbered from `i + 1`, each cut to 2000 characters.
  abbrev pub line_hits : Text → ℕ → List Text → List Match
  line_hits path i [] = []
  line_hits path i (line ∷ rest) =
      if ctx.is_match line
      then record { path = path; line = suc i; shown = take 2000 line }
        ∷ line_hits path (suc i) rest
      else line_hits path (suc i) rest

  abbrev pub text_hits : DirEntry → Contents → List Match
  text_hits e unreadable = []
  text_hits e binary = []
  text_hits e (text t) = line_hits e.path 0 (lines t)

  -- A second look at the file must succeed and find it within the size bound.
  abbrev pub file_hits : DirEntry → List Match
  file_hits e = elim e.stat [
    | none ↦ []
    | some m ↦ if ltb ctx.max_file_bytes m.len then [] else text_hits e e.contents
  ]

  abbrev pub hits : DirEntry → Metadata → List Match
  hits e m = if is_file m && name_passes ctx.name_glob e.file_name then file_hits e else []

  -- All matching lines of the selected files down to the depth bound, in the order of the walk.
  abbrev pub matching : Dir → List Match
  matching d = collect hits ctx.max_depth d 0

  scan_lines-take :
      (path : Text) (i : ℕ) (ls : List Text) (out : List Match)
      → length out ≤ ctx.max_matches
      → scan_lines ctx path i ls out ≡ take ctx.max_matches (out ++ line_hits path i ls)
  unfolding scan_lines
  scan_lines-take path i [] out h = rw append-nil (sym (take_all _ out h))
  scan_lines-take path i (l ∷ ls) out h = elim (Bool-cases (leb ctx.max_matches (length out))) [
    | inl full ↦ rw full (sym (take_full _ out _ (omega (arith, leb→le, full)) ∙ take_all _ out h))
    | inr room ↦ rw room (elim (Bool-cases (ctx.is_match l)) [
      | inl hit ↦ rw hit (
          scan_lines-take path (suc i) ls _
            (omega (arith, leb-false, room, length-append out (match_at path i l ∷ [])))
          ∙ ap (take ctx.max_matches) (append_assoc out _ (line_hits path (suc i) ls)))
      | inr miss ↦ rw miss (scan_lines-take path (suc i) ls out h)
    ])
  ]

  scan_text-take :
      (e : DirEntry) (c : Contents) (out : List Match)
      → length out ≤ ctx.max_matches
      → scan_text ctx e c out ≡ take ctx.max_matches (out ++ text_hits e c)
  unfolding scan_text
  scan_text-take e unreadable out h = rw append-nil (sym (take_all _ out h))
  scan_text-take e binary out h = rw append-nil (sym (take_all _ out h))
  scan_text-take e (text t) out h = scan_lines-take e.path 0 (lines t) out h

  scan_file-take :
      (e : DirEntry) (out : List Match)
      → length out < ctx.max_matches
      → scan_file ctx e out ≡ take ctx.max_matches (out ++ file_hits e)
  unfolding scan_file
  scan_file-take e out h =
      let room : leb ctx.max_matches (length out) ≡ false = ground arith in
      let kept : out ≡ take ctx.max_matches (out ++ []) =
        rw append-nil (sym (take_all _ out (omega arith))) in
      rw room (elim (Option-cases e.stat) [
        | inl gone ↦ rw gone kept
        | inr (m, found) ↦ rw found (elim (Bool-cases (ltb ctx.max_file_bytes m.len)) [
          | inl big ↦ rw big kept
          | inr fits ↦ rw fits (scan_text-take e e.contents out (omega arith))
        ])
      ])

  visit-take :
      (e : DirEntry) (m : Metadata) (out : List Match)
      → length out < ctx.max_matches
      → visit ctx e m out ≡ take ctx.max_matches (out ++ hits e m)
  unfolding visit
  visit-take e m out h =
      let kept : out ≡ take ctx.max_matches (out ++ []) =
        rw append-nil (sym (take_all _ out (omega arith))) in
      elim (Bool-cases (is_file m)) [
        | inr other ↦ rw other kept
        | inl file ↦ rw file (elim (Bool-cases (name_passes ctx.name_glob e.file_name)) [
          | inr fails ↦ rw fails kept
          | inl passes ↦ rw passes (scan_file-take e out h)
        ])
      ]

  visitor-Lists : Lists (visitor ctx) hits ctx.max_matches
  visitor-Lists = record { full_at = λ out. refl; appends = visit-take }

  walk-matching : (d : Dir) → walk ctx d 0 [] ≡ take ctx.max_matches (matching d)
  unfolding walk
  walk-matching d = walk-collect visitor-Lists ctx.max_depth d 0

-- Where `max_matches + 1` fits in a `usize`, the matches are the first `max_matches` matching lines
-- of the tree, and `truncated` says exactly whether there are more.
pub grep-matching :
    (pattern : Text) (ctx : Ctx) (d : Dir)
    → ctx.max_matches + 1 < usize_mod
    → ((grep pattern ctx d).matches ≡ take ctx.max_matches (matching ctx d))
      × ((grep pattern ctx d).truncated ≡ ltb ctx.max_matches (length (matching ctx d)))
unfolding grep
grep-matching pattern ctx d h =
    let n = ctx.max_matches in
    let e : (n + 1) % usize_mod ≡ n + 1 = omega arith in
    let l : (n + 1 + usize_mod - 1) % usize_mod ≡ n = omega arith in
    let w = walk-matching (record ctx { max_matches = n + 1 }) d in
    (
      rw (e, l, w) (cut-one_more n (matching ctx d)),
      rw (e, l, w) (ground (arith, length-take (n + 1) (matching ctx d))),
    )
