-- ===== src/Secrets/Results.antt =====
-- What secret-scan returns, beside a listing without a bound.
use pantheon_tools_catalog.Prelude.{
  ℕ, suc, ◌≤◌, ◌<◌, ◌≡◌, refl, sym, ◌∙◌, ap, true, false, min, ◌&&◌, none, some, List, [], ◌∷◌,
  ◌++◌, map, arith, length, any, take, take_all, take_full, take-append-take, length-take,
  length-append, append-nil, append_assoc, leb, ltb, if◌then◌else◌, Bool-cases, inl, inr,
  Option-cases, leb→le, leb-false,
}
use pantheon_tools_catalog.Text.{Text, lines, text_eq}
use pantheon_tools_catalog.Text.Find.{contains}
use pantheon_tools_catalog.Fs.{DirEntry, Metadata, Dir, Contents, unreadable, binary, text, is_file}
use pantheon_tools_catalog.Walk.Spec.{collect, Lists, walk-collect}
use pantheon_tools_catalog.Masking.{masked_excerpt}
use pantheon_tools_catalog.Secrets.Scan.{
  Ctx, Hit, Found, scan_line, push_hits, line_step, scan_lines, scan_text, scan_file, name_passes,
  visit, visitor, walk,
}
use pantheon_tools_catalog.Secrets.{scan}

-- The rules that fire and were not seen before, in order, each once.
abbrev pub new_rules : List Text → List Hit → List Text
new_rules seen [] = []
new_rules seen (h ∷ hits) =
    if any (text_eq h.rule) seen
    then new_rules seen hits
    else h.rule ∷ new_rules (seen ++ h.rule ∷ []) hits

abbrev pub found_at : Text → ℕ → Text → Text → Found
found_at path lineno excerpt rule = record {
  path = path;
  line = lineno;
  rule = rule;
  excerpt = excerpt;
}

module _ (ctx : Ctx) where
  -- The records of one line: one for each rule that fires on it, with all secrets masked, unless
  -- the allowlist excuses the line.
  abbrev pub line_found : Text → ℕ → Text → List Found
  line_found path lineno line =
      let hits = scan_line ctx line in
      let excerpt = masked_excerpt line (map (λ (h : Hit). h.span) hits) in
      if any (λ s. contains s line) ctx.allowlist
      then []
      else map (found_at path lineno excerpt) (new_rules [] hits)

  abbrev pub lines_found : Text → ℕ → List Text → List Found
  lines_found path i [] = []
  lines_found path i (line ∷ rest) = line_found path (suc i) line ++ lines_found path (suc i) rest

  abbrev pub text_found : DirEntry → Contents → List Found
  text_found e unreadable = []
  text_found e binary = []
  text_found e (text t) = lines_found e.path 0 (lines t)

  abbrev pub file_found : DirEntry → List Found
  file_found e = elim e.stat [
    | none ↦ []
    | some m ↦ if ltb ctx.max_file_bytes m.len then [] else text_found e e.contents
  ]

  abbrev pub entry_found : DirEntry → Metadata → List Found
  entry_found e m = if is_file m && name_passes ctx e.file_name then file_found e else []

  -- All records of a tree, down to the depth bound, in the order of the walk.
  abbrev pub all_found : Dir → List Found
  all_found d = collect entry_found ctx.max_depth d 0

  abbrev cap_at : List Found → List Found → List Found
  cap_at out more = take ctx.max_matches (out ++ more)

  unchanged : (out : List Found) → length out ≤ ctx.max_matches → out ≡ cap_at out []
  unchanged out h = rw append-nil (sym (take_all _ out h))

  unchanged_full :
      (out more : List Found)
      → leb ctx.max_matches (length out) ≡ true
      → length out ≤ ctx.max_matches
      → out ≡ cap_at out more
  unchanged_full out more f h =
      sym (take_full _ out more (omega (arith, leb→le, f)) ∙ take_all _ out h)

  push_hits-cap :
      (path : Text) (n : ℕ) (excerpt : Text) (seen : List Text) (hits : List Hit) (out : List Found)
      → length out ≤ ctx.max_matches
      → push_hits ctx path n excerpt seen hits out
        ≡ cap_at out (map (found_at path n excerpt) (new_rules seen hits))
  unfolding push_hits
  push_hits-cap path n excerpt seen [] out h = unchanged out h
  push_hits-cap path n excerpt seen (x ∷ hits) out h =
      elim (Bool-cases (any (text_eq x.rule) seen)) [
        | inl again ↦ rw again (push_hits-cap path n excerpt seen hits out h)
        | inr new ↦ elim (Bool-cases (leb ctx.max_matches (length out))) [
          | inl stop ↦ rw (new, stop) (unchanged_full out _ stop h)
          | inr room ↦
              rw (new, room)
                (push_hits-cap path n excerpt (seen ++ x.rule ∷ []) hits _ (
                    omega (
                      arith,
                      leb-false,
                      room,
                      length-append out (found_at path n excerpt x.rule ∷ []),
                    ))
                  ∙ ap (take ctx.max_matches) (append_assoc out _ _))
        ]
      ]

  line_step-cap :
      (path : Text) (n : ℕ) (line : Text) (out : List Found)
      → length out ≤ ctx.max_matches
      → line_step ctx path n line out ≡ cap_at out (line_found path n line)
  unfolding line_step
  line_step-cap path n line out h = elim (Bool-cases (any (λ s. contains s line) ctx.allowlist)) [
    | inl excused ↦ rw excused (unchanged out h)
    | inr checked ↦ rw checked (push_hits-cap path n _ [] (scan_line ctx line) out h)
  ]

  scan_lines-cap :
      (path : Text) (i : ℕ) (ls : List Text) (out : List Found)
      → length out ≤ ctx.max_matches
      → scan_lines ctx path i ls out ≡ cap_at out (lines_found path i ls)
  unfolding scan_lines
  scan_lines-cap path i [] out h = unchanged out h
  scan_lines-cap path i (line ∷ rest) out h = elim (Bool-cases (leb ctx.max_matches (length out))) [
    | inl stop ↦ rw stop (unchanged_full out _ stop h)
    | inr room ↦
        let here = line_found path (suc i) line in
        let later = lines_found path (suc i) rest in
        rw (room, line_step-cap path (suc i) line out h)
          (scan_lines-cap path (suc i) rest (cap_at out here)
              (omega (arith, length-take ctx.max_matches (out ++ here)))
            ∙ take-append-take ctx.max_matches (out ++ here) later
            ∙ ap (take ctx.max_matches) (append_assoc out here later))
  ]

  scan_text-cap :
      (e : DirEntry) (c : Contents) (out : List Found)
      → length out ≤ ctx.max_matches
      → scan_text ctx e c out ≡ cap_at out (text_found e c)
  unfolding scan_text
  scan_text-cap e unreadable out h = unchanged out h
  scan_text-cap e binary out h = unchanged out h
  scan_text-cap e (text t) out h = scan_lines-cap e.path 0 (lines t) out h

  scan_file-cap :
      (e : DirEntry) (out : List Found)
      → length out < ctx.max_matches
      → scan_file ctx e out ≡ cap_at out (file_found e)
  unfolding scan_file
  scan_file-cap e out h =
      let room : leb ctx.max_matches (length out) ≡ false = ground arith in
      let le : length out ≤ ctx.max_matches = omega arith in
      rw room (elim (Option-cases e.stat) [
        | inl gone ↦ rw gone (unchanged out le)
        | inr (m, found) ↦ rw found (elim (Bool-cases (ltb ctx.max_file_bytes m.len)) [
          | inl big ↦ rw big (unchanged out le)
          | inr fits ↦ rw fits (scan_text-cap e e.contents out le)
        ])
      ])

  visit-cap :
      (e : DirEntry) (m : Metadata) (out : List Found)
      → length out < ctx.max_matches
      → visit ctx e m out ≡ cap_at out (entry_found e m)
  unfolding visit
  visit-cap e m out h = elim (Bool-cases (is_file m && name_passes ctx e.file_name)) [
    | inl chosen ↦ rw chosen (scan_file-cap e out h)
    | inr other ↦ rw other (unchanged out (omega arith))
  ]

  visitor-Lists : Lists (visitor ctx) entry_found ctx.max_matches
  visitor-Lists = record { full_at = λ out. refl; appends = visit-cap }

-- The records are the first `max_matches` of the tree, their number is given, and `truncated` says
-- exactly whether there are `max_matches` or more.
pub scan-all_found :
    (root : Text) (ctx : Ctx) (d : Dir)
    → ((scan root ctx d).found ≡ take ctx.max_matches (all_found ctx d))
      × ((scan root ctx d).count ≡ min ctx.max_matches (length (all_found ctx d)))
      × ((scan root ctx d).truncated ≡ leb ctx.max_matches (length (all_found ctx d)))
unfolding scan walk
scan-all_found root ctx d =
    let all = all_found ctx d in
    let w : walk ctx d 0 [] ≡ take ctx.max_matches all =
      walk-collect (visitor-Lists ctx) ctx.max_depth d 0 in
    let counted : length (walk ctx d 0 []) ≡ min ctx.max_matches (length all) =
      ap length w ∙ length-take ctx.max_matches all in
    (w, counted, rw counted (ground arith))
