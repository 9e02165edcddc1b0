-- ===== src/Triage/Keeps.antt =====
-- What the scan of a text by log-triage leaves alone, and the bounds of its counters.
use pantheon_tools_catalog.Prelude.{
  ℕ, suc, ◌+◌, ◌%◌, ◌^◌, ◌≤◌, ◌≡◌, refl, Bool, true, false, not, ◌&&◌, Bool-cases, Option-cases,
  inl, inr, if◌then◌else◌, Option, none, some, List, [], ◌∷◌, arith, length, foldl, is_empty, ltb,
  leb, ltb→lt, if-induction, Option-induction,
}
use pantheon_tools_catalog.Text.{Text, lines, trim_end}
use pantheon_tools_catalog.Map.{get, length-insert}
use pantheon_tools_catalog.Map.Sorted.{IsSorted, insert-IsSorted, length-insert_present}
use pantheon_tools_catalog.Fs.{DirEntry, Contents, unreadable, binary, text}
use pantheon_tools_catalog.Triage.Acc.{Finding, ErrorBurst, Acc, push, increment}
use pantheon_tools_catalog.Triage.Scan.{
  Ctx, Errors, fired, finding_at, excerpt_of, ip_hits, count_ip, max_distinct_ips, in_window,
  cutoff, scan_line, line_step, scan_lines, burst_finding, report_burst, scan_text, scan_file,
}

-- A predicate that each change to `Acc` in the loop over the lines keeps.
pub record Kept (ctx : Ctx) (P : Acc → Type 0) : Type 0 where
  pub on_push : (f : Finding) (acc : Acc) → P acc → P (push ctx.max_findings f acc)
  pub on_ip :
      (path : Text) (n : ℕ) (excerpt : Text) (acc : Acc) (ip : Text)
      → P acc
      → P (count_ip path n excerpt acc ip)
  pub on_line : (k : ℕ) (acc : Acc) → P acc → P (record acc { lines_scanned = k })
  pub on_burst : (bs : List ErrorBurst) (acc : Acc) → P acc → P (record acc { error_bursts = bs })

module _ (ctx : Ctx) (P : Acc → Type 0) (kept : Kept ctx P) where
  foldl_keeps :
      {A : Type 0} (f : Acc → A → Acc)
      → ((acc : Acc) (a : A) → P acc → P (f acc a))
      → (xs : List A) (acc : Acc) → P acc
      → P (foldl f acc xs)
  foldl_keeps f k [] acc h = h
  foldl_keeps f k (x ∷ xs) acc h = foldl_keeps f k xs (f acc x) (k acc x h)

  pub scan_line_keeps :
      (path : Text) (n : ℕ) (line : Text) (acc : Acc) → P acc → P (scan_line ctx path n line acc)
  unfolding scan_line
  scan_line_keeps path n line acc h =
      foldl_keeps (count_ip path n (excerpt_of ctx line))
        (λ a ip. kept.on_ip path n (excerpt_of ctx line) a ip) (ip_hits ctx line) _
        (foldl_keeps (λ a d. push ctx.max_findings (finding_at ctx path n line d) a)
          (λ a d. kept.on_push (finding_at ctx path n line d) a) (fired ctx line) acc h)

  pub scan_lines_keeps :
      (path : Text) (cut : Option ℕ) (i : ℕ) (ls : List Text) (s : Errors × Acc)
      → P (s.1)
      → P ((scan_lines ctx path cut i ls s).1)
  unfolding scan_lines line_step
  scan_lines_keeps path cut i [] s h = h
  scan_lines_keeps path cut i (raw ∷ rest) s h = scan_lines_keeps path cut (suc i) rest _ (
      if-induction (λ (r : Errors × Acc). P (r.1)) (in_window ctx cut (trim_end raw)) _ _
        (λ _.
          if-induction (λ (r : Errors × Acc). P (r.1)) (is_empty (trim_end raw)) _ _
            (λ _. kept.on_line _ (s.1) h)
            (λ _. scan_line_keeps path (suc i) (trim_end raw) _ (kept.on_line _ (s.1) h)))
        (λ _. h))

  pub report_burst_keeps : (path : Text) (s : Errors × Acc) → P (s.1) → P (report_burst ctx path s)
  unfolding report_burst
  report_burst_keeps path s h =
      if-induction P (leb 10 (s.0).error_count) _ _
        (λ _. kept.on_burst _ _ (kept.on_push (burst_finding ctx path (s.0)) (s.1) h)) (λ _. h)

abbrev Progress : ℕ → Bool → Acc → Type 0
Progress k b acc = (acc.files_scanned ≡ k) × (acc.files_truncated ≡ b)

count_ip-Progress :
    {k : ℕ} {b : Bool} (path : Text) (n : ℕ) (excerpt : Text) (acc : Acc) (ip : Text)
    → Progress k b acc
    → Progress k b (count_ip path n excerpt acc ip)
unfolding count_ip
count_ip-Progress {k} {b} path n excerpt acc ip h =
    Option-induction (Progress k b) (get ip acc.ips) _ _
      (λ _.
        if-induction (Progress k b) (ltb (length acc.ips) max_distinct_ips) _ _ (λ _. h) (λ _. h))
      (λ st _. h)

-- No more addresses than the bound are kept, in the order of the map.
abbrev pub IpsBounded : Acc → Type 0
IpsBounded acc = IsSorted acc.ips × (length acc.ips ≤ max_distinct_ips)

module _ (ctx : Ctx) where
  Progress-Kept : (k : ℕ) (b : Bool) → Kept ctx (Progress k b)
  unfolding push count_ip
  Progress-Kept k b = record {
    on_push = λ f acc h. h;
    on_ip = λ path n excerpt acc ip h. count_ip-Progress path n excerpt acc ip h;
    on_line = λ l acc h. h;
    on_burst = λ bs acc h. h;
  }

  -- A scan counts at most one file, and leaves the end of the walk open.
  abbrev pub Counted : Acc → Acc → Type 0
  Counted acc acc' =
      (acc'.files_scanned ≤ acc.files_scanned + 1) × (acc'.files_truncated ≡ acc.files_truncated)

  scan_text-Counted :
      (e : DirEntry) (c : Contents) (acc : Acc) → Counted acc (scan_text ctx e c acc)
  unfolding scan_text
  scan_text-Counted e unreadable acc = (omega arith, refl)
  scan_text-Counted e binary acc = (omega arith, refl)
  scan_text-Counted e (text t) acc =
      let k = increment acc.files_scanned in
      let b = acc.files_truncated in
      let kept = Progress-Kept k b in
      let counted : Acc = record acc { files_scanned = k } in
      let start : Errors × Acc = (record { error_count = 0; error_first = [] }, counted) in
      let lines_kept =
        scan_lines_keeps ctx (Progress k b) kept e.path (cutoff ctx (lines t)) 0 (lines t) start
          (refl, refl) in
      let (scanned, truncated) =
        report_burst_keeps ctx (Progress k b) kept e.path
          (scan_lines ctx e.path (cutoff ctx (lines t)) 0 (lines t) start) lines_kept in
      (omega (arith, scanned), truncated)

  pub scan_file-Counted : (e : DirEntry) (acc : Acc) → Counted acc (scan_file ctx e acc)
  unfolding scan_file
  scan_file-Counted e acc =
      Option-induction (Counted acc) e.stat _ _ (λ _. (omega arith, refl))
        (λ m _.
          if-induction (Counted acc) (ltb ctx.max_file_bytes m.len) _ _ (λ _. (omega arith, refl))
            (λ _. scan_text-Counted e e.contents acc))

  -- Whether a file is scanned once the walk comes to it: it is not too big, and it is text.
  abbrev pub is_text : Contents → Bool
  is_text unreadable = false
  is_text binary = false
  is_text (text t) = true

  abbrev pub scannable : DirEntry → Bool
  scannable e = elim e.stat [
    | none ↦ false
    | some m ↦ not (ltb ctx.max_file_bytes m.len) && is_text e.contents
  ]

  abbrev Ticks : Bool → Acc → Acc → Type 0
  Ticks b acc acc' =
      acc'.files_scanned ≡ (if b then increment acc.files_scanned else acc.files_scanned)

  scan_text-Ticks :
      (e : DirEntry) (c : Contents) (acc : Acc) → Ticks (is_text c) acc (scan_text ctx e c acc)
  unfolding scan_text
  scan_text-Ticks e unreadable acc = refl
  scan_text-Ticks e binary acc = refl
  scan_text-Ticks e (text t) acc =
      let k = increment acc.files_scanned in
      let b = acc.files_truncated in
      let kept = Progress-Kept k b in
      let counted : Acc = record acc { files_scanned = k } in
      let start : Errors × Acc = (record { error_count = 0; error_first = [] }, counted) in
      (report_burst_keeps ctx (Progress k b) kept e.path
        (scan_lines ctx e.path (cutoff ctx (lines t)) 0 (lines t) start)
        (scan_lines_keeps ctx (Progress k b) kept e.path (cutoff ctx (lines t)) 0 (lines t) start
          (refl, refl))).0

  pub scan_file-Ticks : (e : DirEntry) (acc : Acc) → Ticks (scannable e) acc (scan_file ctx e acc)
  unfolding scan_file
  scan_file-Ticks e acc = elim (Option-cases e.stat) [
    | inl gone ↦ rw (scan_file, gone) refl
    | inr (m, found) ↦ elim (Bool-cases (ltb ctx.max_file_bytes m.len)) [
      | inl big ↦ rw (scan_file, found, big) refl
      | inr fits ↦ rw (scan_file, found, fits) (scan_text-Ticks e e.contents acc)
    ]
  ]

  pub IpsBounded-Kept : Kept ctx IpsBounded
  unfolding push count_ip
  IpsBounded-Kept = record {
    on_push = λ f acc h. h;
    on_ip = λ path n excerpt acc ip h.
        Option-induction IpsBounded (get ip acc.ips) _ _
          (λ _.
            if-induction IpsBounded (ltb (length acc.ips) max_distinct_ips) _ _
              (λ room. (
                insert-IsSorted ip _ acc.ips h.0,
                omega (
                  arith,
                  ltb→lt,
                  room,
                  length-insert ip
                      (record {
                        count = 1;
                        first_path = path;
                        first_line = n;
                        first_excerpt = excerpt;
                      })
                      acc.ips,
                ),
              ))
              (λ _. h))
          (λ st found. (
            insert-IsSorted ip _ acc.ips h.0,
            omega (
              arith,
              h.1,
              length-insert_present ip (record st { count = (st.count + 1) % 2 ^ 64 }) st acc.ips
                  h.0 found,
            ),
          ));
    on_line = λ l acc h. h;
    on_burst = λ bs acc h. h;
  }
