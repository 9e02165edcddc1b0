-- ===== src/Triage/Report.antt =====
-- `arg_usize`, `compile` and `run` of tools/log-triage/src/main.rs.
use pantheon_tools_catalog.Prelude.{
  ℕ, ◌-◌, ◌*◌, min, Bool, true, false, not, ◌||◌, Option, none, some, List, [], ◌∷◌, ◌++◌, map,
  length, take, foldl, is_empty, ltb, ◌==◌, compare, Ordering, if◌then◌else◌, unwrap_or, and_then,
  ok_or, ensure, Result, ok, err, ◌>>=◌, ◌>>◌,
}
use Prim.Native.String.{String}
use pantheon_tools_catalog.Text.{Text, codes}
use pantheon_tools_catalog.Text.Order.{text_cmp}
use pantheon_tools_catalog.Map.{Map}
use pantheon_tools_catalog.Sort.{sort}
use pantheon_tools_catalog.Serde.{Serde, str_arg, as_usize}
use pantheon_tools_catalog.Fs.{Dir, World}
use pantheon_tools_catalog.Patterns.{Patterns}
use pantheon_tools_catalog.Triage.Acc.{
  info, Finding, IpStat, ErrorBurst, PerSeverity, Acc, LineDetector, line_detectors, push, new,
  det_error_burst, det_ioc_ip,
}
use pantheon_tools_catalog.Triage.Scan.{Detector, Ctx, walk}

pub data Error : Type 0 where
  args_not_json args_not_object name_glob_empty max_files_zero max_findings_zero : Error
  not_an_integer : Text → Error
  bad_pattern : Text → Error
  root_not_directory : Text → Error

module _ (j : Serde) where
  unfoldable pub arg_usize : j.Value → String → ℕ → Result Error ℕ
  arg_usize a key default = elim (j.get a (codes key)) [
    | none ↦ ok (as_usize default)
    | some v ↦
        if j.is_null v
        then ok (as_usize default)
        else ok_or (and_then (j.as_u64 v) (λ n. some (as_usize n))) (not_an_integer (codes key))
  ]

  unfoldable pub name_glob_arg : j.Value → Result Error Text
  name_glob_arg a = elim (j.get a (codes "name_glob")) [
    | none ↦ ok (codes "*.log")
    | some v ↦ if j.is_null v then ok (codes "*.log") else elim (j.as_str v) [
      | none ↦ err name_glob_empty
      | some s ↦ if is_empty s then err name_glob_empty else ok s
    ]
  ]

module _ (p : Patterns) where
  unfoldable pub compile : Text → Text → Result Error p.Regex
  compile pat what = ok_or (p.new pat) (bad_pattern what)

  unfoldable pub compile_all : List LineDetector → Result Error (List Detector)
  unfolding compile
  compile_all [] = ok []
  compile_all (d ∷ ds) = do
    re ← compile d.pattern d.id
    rest ← compile_all ds
    ok (
        record {
          id = d.id;
          is_match = p.is_match re;
          captures_iter = p.captures_iter re;
          severity = d.severity;
          mask_group = d.mask_group;
        }
        ∷ rest)

abbrev pub error_class_re : Text
error_class_re = codes "(?i)\\b(error|fatal|panic|exception|traceback)\\b"

abbrev pub ipv4_re : Text
ipv4_re = codes "\\b(?:\\d{1,3}\\.){3}\\d{1,3}\\b"

abbrev pub iso_ts_re : Text
iso_ts_re = codes "(\\d{4})-(\\d{2})-(\\d{2})[T ](\\d{2}):(\\d{2}):(\\d{2})"

abbrev pub syslog_ts_re : Text
syslog_ts_re =
    codes
      "^\\s*(Jan|Feb|Mar|Apr|May|Jun|Jul|Aug|Sep|Oct|Nov|Dec)\\s+(\\d{1,2})\\s+(\\d{2}):(\\d{2}):(\\d{2})"

pub record Args : Type 0 where
  pub root : Text
  pub window_minutes : ℕ
  pub ctx : Ctx

unfoldable pub read_args : Serde → Patterns → Option Text → Result Error Args
unfolding arg_usize name_glob_arg compile compile_all
read_args j p raw = do
  a ← ok_or (j.from_str (unwrap_or raw (codes "{}"))) args_not_json
  ensure (j.is_object a) args_not_object
  name_glob ← name_glob_arg j a
  max_files ← arg_usize j a "max_files" 500
  max_file_bytes ← arg_usize j a "max_file_bytes" 10485760
  max_depth ← arg_usize j a "max_depth" 20
  max_findings ← arg_usize j a "max_findings" 200
  window_minutes ← arg_usize j a "window_minutes" 0
  ensure (not (max_files == 0)) max_files_zero
  ensure (not (max_findings == 0)) max_findings_zero
  detectors ← compile_all p line_detectors
  error_re ← compile p error_class_re det_error_burst
  ip_re ← compile p ipv4_re det_ioc_ip
  iso_re ← compile p iso_ts_re (codes "iso-timestamp")
  syslog_re ← compile p syslog_ts_re (codes "syslog-timestamp")
  ok (record {
    root = unwrap_or (str_arg j a "root") (codes "/work");
    window_minutes = window_minutes;
    ctx = record {
      detectors = detectors;
      error_is_match = p.is_match error_re;
      ip_find_iter = p.find_iter ip_re;
      iso_captures = p.captures iso_re;
      syslog_captures = p.captures syslog_re;
      name_glob = name_glob;
      max_files = max_files;
      max_file_bytes = max_file_bytes;
      max_depth = max_depth;
      max_findings = max_findings;
      -- below 2^32 * 60, so that nothing is saturated
      window_secs = window_minutes * 60;
    };
  })

-- the order of `ip_list`: by the count, downwards, then by the address
unfoldable pub ip_le : Text × IpStat → Text × IpStat → Bool
unfolding text_cmp
ip_le (ip, st) (ip', st') = elim (compare st'.count st.count) [
  | Ordering.lt ↦ true
  | Ordering.gt ↦ false
  | Ordering.eq ↦ elim (text_cmp ip ip') [ Ordering.gt ↦ false | _ ↦ true ]
]

abbrev pub ip_finding : Text × IpStat → Finding
ip_finding (ip, st) = record {
  detector = det_ioc_ip;
  severity = info;
  path = st.first_path;
  line = st.first_line;
  excerpt = st.first_excerpt;
}

-- the loop over the three buckets
unfoldable pub assemble : ℕ → List (List Finding) → List Finding → List Finding
assemble max_findings [] findings = findings
assemble max_findings (bucket ∷ rest) findings =
    let room = max_findings - length findings in
    let more = assemble max_findings rest (findings ++ take (min room (length bucket)) bucket) in
    if room == 0 then findings else more

pub record Output : Type 0 where
  pub root : Text
  pub files_scanned : ℕ
  pub files_skipped : ℕ
  pub lines_scanned : ℕ
  pub window_minutes : ℕ
  pub truncated : Bool
  pub summary : PerSeverity ℕ
  pub by_detector : Map ℕ
  pub findings : List Finding
  pub error_bursts : List ErrorBurst
  pub public_ips : List (Text × ℕ)

-- `run` after the walk, which leaves `acc`. The order in which the `HashMap` of the addresses is
-- iterated does not matter, since the list is sorted by an order in which no two entries are equal.
unfoldable pub report : Text → ℕ → Ctx → Acc → Output
unfolding ip_le push assemble sort
report root window_minutes ctx acc =
    let ip_list = sort ip_le acc.ips in
    let acc' = foldl (λ a f. push ctx.max_findings f a) acc (map ip_finding ip_list) in
    let buckets = acc'.buckets.at_high ∷ acc'.buckets.at_medium ∷ acc'.buckets.at_info ∷ [] in
    record {
      root = root;
      files_scanned = acc'.files_scanned;
      files_skipped = acc'.files_skipped;
      lines_scanned = acc'.lines_scanned;
      window_minutes = window_minutes;
      truncated = acc'.files_truncated || ltb ctx.max_findings acc'.total_findings;
      summary = acc'.by_severity;
      by_detector = acc'.by_detector;
      findings = assemble ctx.max_findings buckets [];
      error_bursts = acc'.error_bursts;
      public_ips = map (λ (x : Text × IpStat). (x.0, (x.1).count)) (take 20 ip_list);
    }

unfoldable pub triage : Text → ℕ → Ctx → Dir → Output
unfolding report walk new
triage root window_minutes ctx d = report root window_minutes ctx (walk ctx d 0 new)

unfoldable pub run : Serde → Patterns → World → Option Text → Result Error Output
unfolding read_args triage
run j p w raw = do
  args ← read_args j p raw
  ensure (w.path_is_dir args.root) (root_not_directory args.root)
  ok (triage args.root args.window_minutes args.ctx (w.read_dir args.root))
