-- ===== src/Triage/Scan.antt =====
-- `parse_ts`, `scan_file` and `walk` of tools/log-triage/src/main.rs.
use pantheon_tools_catalog.Prelude.{
  ℕ, suc, ◌+◌, ◌-◌, ◌%◌, ◌^◌, max, Bool, true, false, not, ◌&&◌, Option, none, some, List, [], ◌∷◌,
  ◌++◌, map, length, retain, flat_map, filter_map, foldl, get_elem?, is_empty, leb, ltb, ◌==◌,
  if◌then◌else◌, unwrap_or, and_then,
}
use pantheon_tools_catalog.Text.{Text, codes, lines, trim_end}
use pantheon_tools_catalog.Text.Decimal.{to_string, join}
use pantheon_tools_catalog.Glob.{glob_match}
use pantheon_tools_catalog.Map.{get, insert}
use pantheon_tools_catalog.Fs.{DirEntry, Metadata, Dir, Contents, unreadable, binary, text, is_file}
use pantheon_tools_catalog.Walk
use pantheon_tools_catalog.Walk.{Visitor}
use pantheon_tools_catalog.Patterns.{Match, Captures, group}
use pantheon_tools_catalog.Masking.{Span, masked_excerpt}
use pantheon_tools_catalog.Triage.Acc.{
  Severity, medium, Finding, ErrorBurst, Acc, push, increment, det_error_burst,
}
use pantheon_tools_catalog.Triage.Ipv4.{is_public_ipv4}
use pantheon_tools_catalog.Triage.Times.{iso_ts, syslog_ts}

-- `LineDetector`, with the methods of its regex
pub record Detector : Type 0 where
  pub id : Text
  pub is_match : Text → Bool
  pub captures_iter : Text → List Captures
  pub severity : Severity
  pub mask_group : ℕ

-- `Ctx`, with the methods of its regexes
pub record Ctx : Type 0 where
  pub detectors : List Detector
  pub error_is_match : Text → Bool
  pub ip_find_iter : Text → List Match
  pub iso_captures : Text → Option Captures
  pub syslog_captures : Text → Option Captures
  pub name_glob : Text
  pub max_files : ℕ
  pub max_file_bytes : ℕ
  pub max_depth : ℕ
  pub max_findings : ℕ
  pub window_secs : ℕ

abbrev pub max_distinct_ips : ℕ
max_distinct_ips = 4096

-- `error_count` and `error_first`
pub record Errors : Type 0 where
  pub error_count : ℕ
  pub error_first : List ℕ

-- `any`: whether the detector fires on the line
unfoldable pub fires : Text → Detector → Bool
fires line d = if d.mask_group == 0 then d.is_match line else not (is_empty (d.captures_iter line))

abbrev pub span_of : Match → Span
span_of m = (m.start, m.stop)

-- what the detector adds to `mask_spans`
unfoldable pub spans_of : Text → Detector → List Span
spans_of line d =
    if d.mask_group == 0
    then []
    else filter_map (λ c. and_then (group c d.mask_group) (λ m. some (span_of m)))
        (d.captures_iter line)

-- the body of the loop over `ip_hits`
unfoldable pub count_ip : Text → ℕ → Text → Acc → Text → Acc
unfolding get insert
count_ip path lineno excerpt acc ip = elim (get ip acc.ips) [
  | some st ↦ record acc { ips = insert ip (record st { count = (st.count + 1) % 2 ^ 64 }) acc.ips }
  | none ↦
      if ltb (length acc.ips) max_distinct_ips
      then record acc {
        ips =
            insert ip
              (record {
                count = 1;
                first_path = path;
                first_line = lineno;
                first_excerpt = excerpt;
              })
              acc.ips;
      }
      else acc
]

-- the time window of a file
abbrev pub later : Option ℕ → ℕ → Option ℕ
later none t = some t
later (some s) t = some (max s t)

module _ (ctx : Ctx) where
  unfoldable pub parse_ts : Text → Option ℕ
  unfolding iso_ts syslog_ts
  parse_ts line = elim (and_then (ctx.iso_captures line) iso_ts) [
    | some t ↦ some t
    | none ↦ and_then (ctx.syslog_captures line) syslog_ts
  ]

  -- A time is never negative, so that a difference below 0 cuts off as much as 0.
  unfoldable pub cutoff : List Text → Option ℕ
  unfolding parse_ts
  cutoff ls =
      if ltb 0 ctx.window_secs
      then and_then (foldl later none (filter_map parse_ts ls))
          (λ newest. some (newest - ctx.window_secs))
      else none

  unfoldable pub in_window : Option ℕ → Text → Bool
  unfolding parse_ts
  in_window none line = true
  in_window (some cut) line = elim (parse_ts line) [ none ↦ false | some ts ↦ leb cut ts ]

  abbrev pub note_error : ℕ → Text → Errors → Errors
  note_error lineno line errors =
      if ctx.error_is_match line
      then record {
        error_count = increment errors.error_count;
        error_first =
            if ltb (length errors.error_first) 3
            then errors.error_first ++ lineno ∷ []
            else errors.error_first;
      }
      else errors

  abbrev pub fired : Text → List Detector
  fired line = retain (fires line) ctx.detectors

  abbrev pub excerpt_of : Text → Text
  excerpt_of line = masked_excerpt line (flat_map (spans_of line) ctx.detectors)

  abbrev pub ip_hits : Text → List Text
  ip_hits line = retain is_public_ipv4 (map (λ (m : Match). m.matched) (ctx.ip_find_iter line))

  abbrev pub finding_at : Text → ℕ → Text → Detector → Finding
  finding_at path lineno line d = record {
    detector = d.id;
    severity = d.severity;
    path = path;
    line = lineno;
    excerpt = excerpt_of line;
  }

  -- The detectors and the addresses of one line; the `continue` where nothing is found leaves the
  -- two loops without a round.
  unfoldable pub scan_line : Text → ℕ → Text → Acc → Acc
  unfolding fires spans_of count_ip push masked_excerpt is_public_ipv4
  scan_line path lineno line acc =
      let pushed =
        foldl (λ a d. push ctx.max_findings (finding_at path lineno line d) a) acc (fired line) in
      foldl (count_ip path lineno (excerpt_of line)) pushed (ip_hits line)

  -- the body of the loop over `text.lines().enumerate()`
  unfoldable pub line_step : Text → Option ℕ → ℕ → Text → Errors × Acc → Errors × Acc
  unfolding in_window scan_line trim_end
  line_step path cut lineno raw (errors, acc) =
      let line = trim_end raw in
      let counted = record acc { lines_scanned = (acc.lines_scanned + 1) % 2 ^ 64 } in
      if in_window cut line
      then (if is_empty line
          then (errors, counted)
          else (note_error lineno line errors, scan_line path lineno line counted))
      else (errors, acc)

  -- the first line has the number `i + 1`
  unfoldable pub scan_lines : Text → Option ℕ → ℕ → List Text → Errors × Acc → Errors × Acc
  unfolding line_step
  scan_lines path cut i [] s = s
  scan_lines path cut i (raw ∷ rest) s =
      scan_lines path cut (suc i) rest (line_step path cut (suc i) raw s)

  abbrev pub burst_excerpt : Errors → Text
  burst_excerpt errors =
      to_string errors.error_count
      ++ (codes " error-class lines in file (first at lines "
          ++ (join (codes ", ") (map to_string errors.error_first) ++ codes ")"))

  abbrev pub burst_finding : Text → Errors → Finding
  burst_finding path errors = record {
    detector = det_error_burst;
    severity = medium;
    path = path;
    line = unwrap_or (get_elem? errors.error_first 0) 0;
    excerpt = burst_excerpt errors;
  }

  unfoldable pub report_burst : Text → Errors × Acc → Acc
  unfolding push to_string join
  report_burst path (errors, acc) =
      if leb 10 errors.error_count
      then (let pushed = push ctx.max_findings (burst_finding path errors) acc in
          let burst : ErrorBurst = record {
            path = path;
            count = errors.error_count;
            first_lines = errors.error_first;
          } in
          record pushed { error_bursts = pushed.error_bursts ++ burst ∷ [] })
      else acc

  abbrev pub skip : Acc → Acc
  skip acc = record acc { files_skipped = increment acc.files_skipped }

  unfoldable pub scan_text : DirEntry → Contents → Acc → Acc
  unfolding scan_lines report_burst cutoff lines
  scan_text e unreadable acc = skip acc
  scan_text e binary acc = skip acc
  scan_text e (text t) acc =
      let counted = record acc { files_scanned = increment acc.files_scanned } in
      report_burst e.path (
        scan_lines e.path (cutoff (lines t)) 0 (lines t)
          (record { error_count = 0; error_first = [] }, counted))

  unfoldable pub scan_file : DirEntry → Acc → Acc
  unfolding scan_text
  scan_file e acc = elim e.stat [
    | none ↦ skip acc
    | some m ↦ if ltb ctx.max_file_bytes m.len then skip acc else scan_text e e.contents acc
  ]

  -- the body of the loop of `walk`, at an entry that is no directory
  unfoldable pub visit : DirEntry → Metadata → Acc → Acc
  unfolding scan_file glob_match
  visit e m acc =
      if is_file m && glob_match ctx.name_glob e.file_name
      then (if leb ctx.max_files acc.files_scanned
          then record acc { files_truncated = true }
          else scan_file e acc)
      else acc

  abbrev pub visitor : Visitor Acc
  visitor = record { full = λ acc. acc.files_truncated; visit = visit }

  unfoldable pub walk : Dir → ℕ → Acc → Acc
  walk = Walk.walk visitor ctx.max_depth
