-- ===== src/Triage/Sights.antt =====
-- The public addresses of the log files, read off their lines, and the table that log-triage keeps
-- of them.
use pantheon_tools_catalog.Prelude.{
  ℕ, suc, ◌+◌, ◌%◌, ◌^◌, ◌≡◌, refl, sym, ap, ◌∙◌, not, ◌&&◌, Option, none, some, List, [], ◌∷◌,
  ◌++◌, map, length, append-nil, append_assoc, foldl, flat_map, is_empty, ltb, leb, Bool-cases,
  Option-cases, inl, inr, if◌then◌else◌,
}
use pantheon_tools_catalog.Text.{Text, lines, trim_end}
use pantheon_tools_catalog.Map.{Map, get, insert}
use pantheon_tools_catalog.Fs.{DirEntry, Contents, unreadable, binary, text}
use pantheon_tools_catalog.Walk.Fold.{foldl-append}
use pantheon_tools_catalog.Triage.Acc.{IpStat, Acc, push, increment}
use pantheon_tools_catalog.Triage.Scan.{
  Ctx, Errors, Detector, max_distinct_ips, fired, finding_at, excerpt_of, ip_hits, count_ip,
  in_window, cutoff, scan_line, line_step, scan_lines, report_burst, scan_text, scan_file,
}
use pantheon_tools_catalog.Triage.Found.{looked_at}

-- A public address in a line.
pub record Sight : Type 0 where
  pub ip : Text
  pub path : Text
  pub line : ℕ
  pub excerpt : Text

abbrev pub first_stat : Sight → IpStat
first_stat s = record {
  count = 1;
  first_path = s.path;
  first_line = s.line;
  first_excerpt = s.excerpt;
}

abbrev pub once_more : IpStat → IpStat
once_more st = record st { count = (st.count + 1) % 2 ^ 64 }

-- The table after one more sight: what `count_ip` does to the addresses.
unfoldable pub note : Map IpStat → Sight → Map IpStat
note m s = elim (get s.ip m) [
  | some st ↦ insert s.ip (once_more st) m
  | none ↦ if ltb (length m) max_distinct_ips then insert s.ip (first_stat s) m else m
]

module _ (ctx : Ctx) where
  abbrev pub sight_at : Text → ℕ → Text → Text → Sight
  sight_at path n line ip = record { ip = ip; path = path; line = n; excerpt = excerpt_of ctx line }

  abbrev pub line_sights : Text → List (ℕ × Text) → List Sight
  line_sights path [] = []
  line_sights path ((n, line) ∷ rest) =
      map (sight_at path n line) (ip_hits ctx line) ++ line_sights path rest

  abbrev pub text_sights : DirEntry → Contents → List Sight
  text_sights e unreadable = []
  text_sights e binary = []
  text_sights e (text t) = line_sights e.path (looked_at ctx (cutoff ctx (lines t)) 0 (lines t))

  abbrev pub file_sights : DirEntry → List Sight
  file_sights e = elim e.stat [
    | none ↦ []
    | some m ↦ if ltb ctx.max_file_bytes m.len then [] else text_sights e e.contents
  ]

  count_ip-note :
      (path : Text) (n : ℕ) (line : Text) (acc : Acc) (ip : Text)
      → (count_ip path n (excerpt_of ctx line) acc ip).ips ≡ note acc.ips (sight_at path n line ip)
  unfolding count_ip note
  count_ip-note path n line acc ip = elim (Option-cases (get ip acc.ips)) [
    | inr (st, e) ↦ rw (count_ip, note, e) refl
    | inl e ↦
        rw (count_ip, note, e)
          (elim (Bool-cases (ltb (length acc.ips) max_distinct_ips)) [
            | inl room ↦ rw room refl
            | inr full ↦ rw full refl
          ])
  ]

  count_ips-note :
      (path : Text) (n : ℕ) (line : Text) (ips : List Text) (acc : Acc)
      → (foldl (count_ip path n (excerpt_of ctx line)) acc ips).ips
        ≡ foldl note acc.ips (map (sight_at path n line) ips)
  count_ips-note path n line [] acc = refl
  count_ips-note path n line (ip ∷ ips) acc =
      count_ips-note path n line ips (count_ip path n (excerpt_of ctx line) acc ip)
      ∙ ap (λ m. foldl note m (map (sight_at path n line) ips)) (count_ip-note path n line acc ip)

  pushes-ips :
      (path : Text) (n : ℕ) (line : Text) (ds : List Detector) (acc : Acc)
      → (foldl (λ a d. push ctx.max_findings (finding_at ctx path n line d) a) acc ds).ips ≡ acc.ips
  unfolding push
  pushes-ips path n line [] acc = refl
  pushes-ips path n line (d ∷ ds) acc = pushes-ips path n line ds _

  scan_line-note :
      (path : Text) (n : ℕ) (line : Text) (acc : Acc)
      → (scan_line ctx path n line acc).ips
        ≡ foldl note acc.ips (map (sight_at path n line) (ip_hits ctx line))
  unfolding scan_line
  scan_line-note path n line acc =
      count_ips-note path n line (ip_hits ctx line) _
      ∙ ap (λ m. foldl note m (map (sight_at path n line) (ip_hits ctx line)))
          (pushes-ips path n line (fired ctx line) acc)

  abbrev seen_at : Option ℕ → ℕ → Text → List (ℕ × Text)
  seen_at cut n raw =
      if in_window ctx cut (trim_end raw) && not (is_empty (trim_end raw))
      then (n, trim_end raw) ∷ []
      else []

  line_step-note :
      (path : Text) (cut : Option ℕ) (n : ℕ) (raw : Text) (errors : Errors) (acc : Acc)
      → ((line_step ctx path cut n raw (errors, acc)).1).ips
        ≡ foldl note acc.ips (line_sights path (seen_at cut n raw))
  unfolding line_step
  line_step-note path cut n raw errors acc =
      let line = trim_end raw in
      let counted : Acc = record acc { lines_scanned = (acc.lines_scanned + 1) % 2 ^ 64 } in
      elim (Bool-cases (in_window ctx cut line)) [
        | inr old ↦ rw (line_step, old) refl
        | inl recent ↦ elim (Bool-cases (is_empty line)) [
          | inl blank ↦ rw (line_step, recent, blank) refl
          | inr full ↦ rw (line_step, recent, full, append-nil) (scan_line-note path n line counted)
        ]
      ]

  line_sights-append :
      (path : Text) (xs ys : List (ℕ × Text))
      → line_sights path (xs ++ ys) ≡ line_sights path xs ++ line_sights path ys
  line_sights-append path [] ys = refl
  line_sights-append path ((n, line) ∷ xs) ys =
      ap (λ l. map (sight_at path n line) (ip_hits ctx line) ++ l) (line_sights-append path xs ys)
      ∙ sym (
          append_assoc (map (sight_at path n line) (ip_hits ctx line)) (line_sights path xs)
            (line_sights path ys))

  scan_lines-note :
      (path : Text) (cut : Option ℕ) (i : ℕ) (ls : List Text) (s : Errors × Acc)
      → ((scan_lines ctx path cut i ls s).1).ips
        ≡ foldl note ((s.1).ips) (line_sights path (looked_at ctx cut i ls))
  unfolding scan_lines
  scan_lines-note path cut i [] s = refl
  scan_lines-note path cut i (raw ∷ rest) s =
      let later = looked_at ctx cut (suc i) rest in
      scan_lines-note path cut (suc i) rest _
      ∙ ap (λ m. foldl note m (line_sights path later))
          (line_step-note path cut (suc i) raw (s.0) (s.1))
      ∙ sym (foldl-append note ((s.1).ips) (line_sights path (seen_at cut (suc i) raw)) _)
      ∙ ap (foldl note ((s.1).ips)) (sym (line_sights-append path (seen_at cut (suc i) raw) later))

  report_burst-ips : (path : Text) (s : Errors × Acc) → (report_burst ctx path s).ips ≡ (s.1).ips
  unfolding report_burst push
  report_burst-ips path s = elim (Bool-cases (leb 10 (s.0).error_count)) [
    | inl many ↦ rw (report_burst, many) refl
    | inr few ↦ rw (report_burst, few) refl
  ]

  scan_text-note :
      (e : DirEntry) (c : Contents) (acc : Acc)
      → (scan_text ctx e c acc).ips ≡ foldl note acc.ips (text_sights e c)
  unfolding scan_text
  scan_text-note e unreadable acc = refl
  scan_text-note e binary acc = refl
  scan_text-note e (text t) acc =
      let counted : Acc = record acc { files_scanned = increment acc.files_scanned } in
      let start : Errors × Acc = (record { error_count = 0; error_first = [] }, counted) in
      let cut = cutoff ctx (lines t) in
      report_burst-ips e.path (scan_lines ctx e.path cut 0 (lines t) start)
      ∙ scan_lines-note e.path cut 0 (lines t) start

  scan_file-note :
      (e : DirEntry) (acc : Acc) → (scan_file ctx e acc).ips ≡ foldl note acc.ips (file_sights e)
  unfolding scan_file
  scan_file-note e acc = elim (Option-cases e.stat) [
    | inl gone ↦ rw (scan_file, file_sights, gone) refl
    | inr (m, found) ↦ elim (Bool-cases (ltb ctx.max_file_bytes m.len)) [
      | inl big ↦ rw (scan_file, file_sights, found, big) refl
      | inr fits ↦ rw (scan_file, file_sights, found, fits) (scan_text-note e e.contents acc)
    ]
  ]

  pub scan_files-note :
      (es : List DirEntry) (acc : Acc)
      → (foldl (λ a e. scan_file ctx e a) acc es).ips ≡ foldl note acc.ips (flat_map file_sights es)
  scan_files-note [] acc = refl
  scan_files-note (e ∷ es) acc =
      scan_files-note es (scan_file ctx e acc)
      ∙ ap (λ m. foldl note m (flat_map file_sights es)) (scan_file-note e acc)
      ∙ sym (foldl-append note acc.ips (file_sights e) (flat_map file_sights es))
