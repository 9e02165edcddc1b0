-- ===== src/Triage/Found.antt =====
-- The findings of a file of log-triage, read off its lines, and what `scan_file` pushes.
use pantheon_tools_catalog.Prelude.{
  ℕ, suc, ◌+◌, ◌%◌, ◌^◌, ◌≡◌, refl, sym, ap, subst, ◌∙◌, not, ◌&&◌, Option, none, some, List, [],
  ◌∷◌, ◌++◌, map, arith, length, take, append-nil, append_assoc, length-append, foldl, is_empty,
  ltb, leb, Bool-cases, Option-cases, inl, inr, if◌then◌else◌,
}
use pantheon_tools_catalog.Text.{Text, lines, trim_end}
use pantheon_tools_catalog.Serde.{usize_mod}
use pantheon_tools_catalog.Map.{get}
use pantheon_tools_catalog.Fs.{DirEntry, Contents, unreadable, binary, text}
use pantheon_tools_catalog.Triage.Acc.{Finding, Acc, push, increment}
use pantheon_tools_catalog.Triage.Scan.{
  Ctx, Errors, Detector, note_error, max_distinct_ips, fired, finding_at, excerpt_of, ip_hits,
  count_ip, in_window, cutoff, scan_line, line_step, scan_lines, burst_finding, report_burst,
  scan_text, scan_file,
}
use pantheon_tools_catalog.Triage.Log.{Represents, Represents-beside, push-Represents, take-push}

module _ (ctx : Ctx) where
  abbrev max_findings : ℕ
  max_findings = ctx.max_findings

  -- The lines that are looked at: those in the window that are not blank, with their numbers.
  abbrev pub looked_at : Option ℕ → ℕ → List Text → List (ℕ × Text)
  looked_at cut i [] = []
  looked_at cut i (raw ∷ rest) =
      let line = trim_end raw in
      let here : List (ℕ × Text) =
        if in_window ctx cut line && not (is_empty line) then (suc i, line) ∷ [] else [] in
      here ++ looked_at cut (suc i) rest

  abbrev pub line_findings : Text → List (ℕ × Text) → List Finding
  line_findings path [] = []
  line_findings path ((n, line) ∷ rest) =
      map (finding_at ctx path n line) (fired ctx line) ++ line_findings path rest

  abbrev pub error_lines : List (ℕ × Text) → List ℕ
  error_lines [] = []
  error_lines ((n, line) ∷ rest) =
      if ctx.error_is_match line then n ∷ error_lines rest else error_lines rest

  abbrev pub errors_of : List ℕ → Errors
  errors_of ns = record { error_count = length ns % usize_mod; error_first = take 3 ns }

  abbrev pub bursts : Text → List ℕ → List Finding
  bursts path ns =
      if leb 10 (length ns % usize_mod) then burst_finding ctx path (errors_of ns) ∷ [] else []

  -- The findings on a text: those of its lines, then one for ten error lines or more.
  abbrev pub text_findings : DirEntry → Contents → List Finding
  text_findings e unreadable = []
  text_findings e binary = []
  text_findings e (text t) =
      let seen = looked_at (cutoff ctx (lines t)) 0 (lines t) in
      line_findings e.path seen ++ bursts e.path (error_lines seen)

  abbrev pub file_findings : DirEntry → List Finding
  file_findings e = elim e.stat [
    | none ↦ []
    | some m ↦ if ltb ctx.max_file_bytes m.len then [] else text_findings e e.contents
  ]

  abbrev Rep : List Finding → Acc → Type 0
  Rep = Represents max_findings

  pub push_all-Represents :
      (fs log : List Finding) (acc : Acc)
      → Rep log acc
      → Rep (log ++ fs) (foldl (λ a f. push ctx.max_findings f a) acc fs)
  push_all-Represents [] log acc r = rw append-nil r
  push_all-Represents (f ∷ fs) log acc r =
      rw⁻¹ (append_assoc log (f ∷ []) fs)
        (push_all-Represents fs (log ++ f ∷ []) _ (push-Represents max_findings f log acc r))

  note_error-errors_of :
      (n : ℕ) (line : Text) (ns : List ℕ)
      → note_error ctx n line (errors_of ns) ≡ errors_of (ns ++ error_lines ((n, line) ∷ []))
  note_error-errors_of n line ns = elim (Bool-cases (ctx.error_is_match line)) [
    | inl hit ↦
        rw (hit, take-push 3 ns n)
          (ap (λ k. record { error_count = k; error_first = take 3 (ns ++ n ∷ []) })
            (omega (arith, length-append ns (n ∷ []))))
    | inr miss ↦ rw (miss, append-nil) refl
  ]

  -- A change to the other fields keeps what is pushed.
  abbrev Beside : Acc → Acc → Type 0
  Beside acc acc' =
      (acc'.buckets ≡ acc.buckets)
      × (acc'.total_findings ≡ acc.total_findings)
      × (acc'.by_severity ≡ acc.by_severity)
      × (acc'.by_detector ≡ acc.by_detector)

  beside : (log : List Finding) (acc acc' : Acc) → Beside acc acc' → Rep log acc → Rep log acc'
  beside log acc acc' (b, t, s, d) r = Represents-beside max_findings log acc acc' b t s d r

  count_ip-Beside :
      (path : Text) (n : ℕ) (excerpt : Text) (acc : Acc) (ip : Text)
      → Beside acc (count_ip path n excerpt acc ip)
  unfolding count_ip
  count_ip-Beside path n excerpt acc ip = elim (Option-cases (get ip acc.ips)) [
    | inr (st, e) ↦ rw (count_ip, e) (refl, refl, refl, refl)
    | inl e ↦
        rw (count_ip, e)
          (elim (Bool-cases (ltb (length acc.ips) max_distinct_ips)) [
            | inl room ↦ rw room (refl, refl, refl, refl)
            | inr full ↦ rw full (refl, refl, refl, refl)
          ])
  ]

  count_ips-Represents :
      (path : Text) (n : ℕ) (excerpt : Text) (log : List Finding) (ips : List Text) (acc : Acc)
      → Rep log acc
      → Rep log (foldl (count_ip path n excerpt) acc ips)
  count_ips-Represents path n excerpt log [] acc r = r
  count_ips-Represents path n excerpt log (ip ∷ ips) acc r =
      count_ips-Represents path n excerpt log ips _
        (beside log acc _ (count_ip-Beside path n excerpt acc ip) r)

  push_at-Represents :
      (path : Text) (n : ℕ) (line : Text) (ds : List Detector) (log : List Finding) (acc : Acc)
      → Rep log acc
      → Rep
          (log ++ map (finding_at ctx path n line) ds)
          (foldl (λ a d. push ctx.max_findings (finding_at ctx path n line d) a) acc ds)
  push_at-Represents path n line [] log acc r = rw append-nil r
  push_at-Represents path n line (d ∷ ds) log acc r =
      let f = finding_at ctx path n line d in
      rw⁻¹ (append_assoc log (f ∷ []) (map (finding_at ctx path n line) ds)) (
        push_at-Represents path n line ds (log ++ f ∷ []) _
          (push-Represents max_findings f log acc r))

  scan_line-Represents :
      (path : Text) (n : ℕ) (line : Text) (log : List Finding) (acc : Acc)
      → Rep log acc
      → Rep
          (log ++ map (finding_at ctx path n line) (fired ctx line))
          (scan_line ctx path n line acc)
  unfolding scan_line
  scan_line-Represents path n line log acc r =
      count_ips-Represents path n (excerpt_of ctx line) _ (ip_hits ctx line) _
        (push_at-Represents path n line (fired ctx line) log acc r)

  -- The state of the loop over the lines, after the lines `seen`.
  abbrev Scanned : Text → List Finding → List (ℕ × Text) → Errors × Acc → Type 0
  Scanned path log seen s =
      (s.0 ≡ errors_of (error_lines seen)) × Rep (log ++ line_findings path seen) (s.1)

  error_lines-append :
      (xs ys : List (ℕ × Text)) → error_lines (xs ++ ys) ≡ error_lines xs ++ error_lines ys
  error_lines-append [] ys = refl
  error_lines-append ((n, line) ∷ xs) ys = ground (arith, error_lines-append xs ys)

  line_findings-append :
      (path : Text) (xs ys : List (ℕ × Text))
      → line_findings path (xs ++ ys) ≡ line_findings path xs ++ line_findings path ys
  line_findings-append path [] ys = refl
  line_findings-append path ((n, line) ∷ xs) ys =
      ap (λ l. map (finding_at ctx path n line) (fired ctx line) ++ l)
        (line_findings-append path xs ys)
      ∙ sym (
          append_assoc (map (finding_at ctx path n line) (fired ctx line)) (line_findings path xs)
            (line_findings path ys))

  abbrev seen_at : Option ℕ → ℕ → Text → List (ℕ × Text)
  seen_at cut n raw =
      if in_window ctx cut (trim_end raw) && not (is_empty (trim_end raw))
      then (n, trim_end raw) ∷ []
      else []

  line_step-Scanned :
      (path : Text) (cut : Option ℕ) (n : ℕ) (raw : Text) (log : List Finding)
      (seen : List (ℕ × Text)) (errors : Errors) (acc : Acc)
      → Scanned path log seen (errors, acc)
      → Scanned path log (seen ++ seen_at cut n raw) (line_step ctx path cut n raw (errors, acc))
  unfolding line_step
  line_step-Scanned path cut n raw log seen errors acc (e, r) =
      let line = trim_end raw in
      let counted : Acc = record acc { lines_scanned = (acc.lines_scanned + 1) % 2 ^ 64 } in
      elim (Bool-cases (in_window ctx cut line)) [
        | inr old ↦ rw (line_step, old, append-nil) (e, r)
        | inl recent ↦ elim (Bool-cases (is_empty line)) [
          | inl blank ↦
              rw (line_step, recent, blank, append-nil)
                (e, beside _ acc counted (refl, refl, refl, refl) r)
          | inr full ↦
              rw (line_step, recent, full)
                (
                  ap (note_error ctx n line) e
                      ∙ note_error-errors_of n line (error_lines seen)
                      ∙ ap errors_of (sym (error_lines-append seen ((n, line) ∷ []))),
                  subst (λ l. Rep l (scan_line ctx path n line counted)) (one_more n line)
                      (scan_line-Represents path n line _ counted
                        (beside _ acc counted (refl, refl, refl, refl) r)),
                )
        ]
      ]
    where
      one_more :
          (n : ℕ) (line : Text)
          → (log ++ line_findings path seen) ++ map (finding_at ctx path n line) (fired ctx line)
            ≡ log ++ line_findings path (seen ++ (n, line) ∷ [])
      one_more n line =
          append_assoc log (line_findings path seen) _
          ∙ ap (λ l. log ++ l)
              (ap (λ l. line_findings path seen ++ l)
                  (sym (append-nil (map (finding_at ctx path n line) (fired ctx line))))
                ∙ sym (line_findings-append path seen ((n, line) ∷ [])))

  scan_lines-Scanned :
      (path : Text) (cut : Option ℕ) (i : ℕ) (ls : List Text) (log : List Finding)
      (seen : List (ℕ × Text)) (s : Errors × Acc)
      → Scanned path log seen s
      → Scanned path log (seen ++ looked_at cut i ls) (scan_lines ctx path cut i ls s)
  unfolding scan_lines
  scan_lines-Scanned path cut i [] log seen s h = rw append-nil h
  scan_lines-Scanned path cut i (raw ∷ rest) log seen s h =
      subst (λ l. Scanned path log l (scan_lines ctx path cut i (raw ∷ rest) s))
        (append_assoc seen (seen_at cut (suc i) raw) (looked_at cut (suc i) rest))
        (scan_lines-Scanned path cut (suc i) rest log (seen ++ seen_at cut (suc i) raw) _
          (line_step-Scanned path cut (suc i) raw log seen (s.0) (s.1) h))

  report_burst-Represents :
      (path : Text) (ns : List ℕ) (log : List Finding) (acc : Acc)
      → Rep log acc
      → Rep (log ++ bursts path ns) (report_burst ctx path (errors_of ns, acc))
  unfolding report_burst
  report_burst-Represents path ns log acc r = elim (Bool-cases (leb 10 (length ns % usize_mod))) [
    | inl many ↦
        rw (report_burst, many)
          (beside _ (push ctx.max_findings (burst_finding ctx path (errors_of ns)) acc) _
            (refl, refl, refl, refl) (push-Represents max_findings _ log acc r))
    | inr few ↦ rw (report_burst, few, append-nil) r
  ]

  scan_text-Represents :
      (e : DirEntry) (c : Contents) (log : List Finding) (acc : Acc)
      → Rep log acc
      → Rep (log ++ text_findings e c) (scan_text ctx e c acc)
  unfolding scan_text
  scan_text-Represents e unreadable log acc r =
      rw append-nil (beside log acc _ (refl, refl, refl, refl) r)
  scan_text-Represents e binary log acc r =
      rw append-nil (beside log acc _ (refl, refl, refl, refl) r)
  scan_text-Represents e (text t) log acc r =
      let ls = lines t in
      let cut = cutoff ctx ls in
      let seen = looked_at cut 0 ls in
      let found = line_findings e.path seen in
      let late = bursts e.path (error_lines seen) in
      let counted : Acc = record acc { files_scanned = increment acc.files_scanned } in
      let start : Errors × Acc = (record { error_count = 0; error_first = [] }, counted) in
      let s = scan_lines ctx e.path cut 0 ls start in
      let begun : Scanned e.path log [] start =
        (refl, rw append-nil (beside log acc counted (refl, refl, refl, refl) r)) in
      let (errors, pushed) = scan_lines-Scanned e.path cut 0 ls log [] start begun in
      subst (λ l. Rep l (report_burst ctx e.path s)) (append_assoc log found late)
        (subst (λ x. Rep ((log ++ found) ++ late) (report_burst ctx e.path (x, s.1))) (sym errors)
          (report_burst-Represents e.path (error_lines seen) (log ++ found) (s.1) pushed))

  pub scan_file-Represents :
      (e : DirEntry) (log : List Finding) (acc : Acc)
      → Rep log acc
      → Rep (log ++ file_findings e) (scan_file ctx e acc)
  unfolding scan_file
  scan_file-Represents e log acc r = elim (Option-cases e.stat) [
    | inl gone ↦ rw (scan_file, gone, append-nil) (beside log acc _ (refl, refl, refl, refl) r)
    | inr (m, found) ↦ elim (Bool-cases (ltb ctx.max_file_bytes m.len)) [
      | inl big ↦
          rw (scan_file, found, big, append-nil) (beside log acc _ (refl, refl, refl, refl) r)
      | inr fits ↦ rw (scan_file, found, fits) (scan_text-Represents e e.contents log acc r)
    ]
  ]
