-- ===== src/Triage/Acc.antt =====
-- `Severity` and `Acc` of tools/log-triage/src/main.rs. The counters of `Acc` are a `usize`, which
-- wraps around in a release build.
use pantheon_tools_catalog.Prelude.{
  ℕ, ◌+◌, ◌%◌, Bool, false, List, [], ◌∷◌, ◌++◌, length, ltb, if◌then◌else◌, unwrap_or,
}
use pantheon_tools_catalog.Text.{Text, codes}
use pantheon_tools_catalog.Serde.{usize_mod}
use pantheon_tools_catalog.Map.{Map, get, insert}

pub data Severity : Type 0 where
  high medium info : Severity

abbrev pub det_error_burst : Text
det_error_burst = codes "error-burst"

abbrev pub det_ioc_ip : Text
det_ioc_ip = codes "ioc-ip"

-- an entry of `LINE_DETECTORS`: its name, its pattern, its severity and the group to mask
pub record LineDetector : Type 0 where
  pub id : Text
  pub pattern : Text
  pub severity : Severity
  pub mask_group : ℕ

abbrev pub line_detectors : List LineDetector
line_detectors =
    record {
      id = codes "auth-failure";
      pattern =
          codes
            "(?i)(authentication failure|failed password|invalid user|login failed|access denied|401 unauthorized|403 forbidden)";
      severity = high;
      mask_group = 0;
    }
    ∷ record {
      id = codes "privilege";
      pattern = codes "(?i)(sudo:|su:|root login|privilege|setuid|became root)";
      severity = high;
      mask_group = 0;
    }
    ∷ record {
      id = codes "ioc-suspicious-cmd";
      pattern =
          codes
            "(?i)(curl|wget)\\s+[^|]*\\|\\s*(ba)?sh|base64\\s+(-d|--decode)|nc\\s+-e|/dev/tcp/|powershell\\s+-enc|mshta|certutil\\s+-urlcache";
      severity = high;
      mask_group = 0;
    }
    ∷ record {
      id = codes "secret-in-log";
      pattern = codes "(?i)(password|passwd|secret|api[_-]?key|token)\\s*[:=]\\s*(\\S{8,})";
      severity = high;
      mask_group = 2;
    }
    ∷ []

pub record Finding : Type 0 where
  pub detector : Text
  pub severity : Severity
  pub path : Text
  pub line : ℕ
  pub excerpt : Text

pub record IpStat : Type 0 where
  pub count : ℕ
  pub first_path : Text
  pub first_line : ℕ
  pub first_excerpt : Text

pub record ErrorBurst : Type 0 where
  pub path : Text
  pub count : ℕ
  pub first_lines : List ℕ

-- `by_severity: [usize; 3]`, and each array of one value for each severity
pub record PerSeverity (A : Type 0) : Type 0 where
  pub at_high : A
  pub at_medium : A
  pub at_info : A

module _ {A : Type 0} where
  abbrev pub at : PerSeverity A → Severity → A
  at p high = p.at_high
  at p medium = p.at_medium
  at p info = p.at_info

  -- one of the three is replaced
  abbrev pub put : Severity → A → PerSeverity A → PerSeverity A
  put high a p = record p { at_high = a }
  put medium a p = record p { at_medium = a }
  put info a p = record p { at_info = a }

-- `buckets` holds the fields `high`, `medium` and `info`.
pub record Acc : Type 0 where
  pub buckets : PerSeverity (List Finding)
  pub total_findings : ℕ
  pub by_severity : PerSeverity ℕ
  pub by_detector : Map ℕ
  pub error_bursts : List ErrorBurst
  pub ips : Map IpStat
  pub files_scanned : ℕ
  pub files_skipped : ℕ
  pub lines_scanned : ℕ
  pub files_truncated : Bool

-- `n += 1` of a `usize`
abbrev pub increment : ℕ → ℕ
increment n = (n + 1) % usize_mod

abbrev pub zero_counts : List LineDetector → Map ℕ → Map ℕ
zero_counts [] m = m
zero_counts (d ∷ ds) m = zero_counts ds (insert d.id 0 m)

unfoldable pub new : Acc
unfolding insert
new = record {
  buckets = record { at_high = []; at_medium = []; at_info = [] };
  total_findings = 0;
  by_severity = record { at_high = 0; at_medium = 0; at_info = 0 };
  by_detector = insert det_ioc_ip 0 (insert det_error_burst 0 (zero_counts line_detectors []));
  error_bursts = [];
  ips = [];
  files_scanned = 0;
  files_skipped = 0;
  lines_scanned = 0;
  files_truncated = false;
}

-- `push`, with the bound `ctx.max_findings`
unfoldable pub push : ℕ → Finding → Acc → Acc
push max_findings f acc =
    let bucket = at acc.buckets f.severity in
    record acc {
      total_findings = increment acc.total_findings;
      by_severity = put f.severity (increment (at acc.by_severity f.severity)) acc.by_severity;
      by_detector =
          insert f.detector (increment (unwrap_or (get f.detector acc.by_detector) 0))
            acc.by_detector;
      buckets =
          put f.severity (if ltb (length bucket) max_findings then bucket ++ f ∷ [] else bucket)
            acc.buckets;
    }
