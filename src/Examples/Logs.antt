-- ===== src/Examples/Logs.antt =====
-- The theorems on log-triage, secret-scan and masking at concrete inputs.
use pantheon_tools_catalog.Prelude.{
  ℕ, zero, suc, ◌+◌, ◌≤◌, ◌<◌, ◌≡◌, ◌↔◌, refl, true, false, none, some, List, [], ◌∷◌, ◌++◌, map,
  arith, min, leb, length, take, retain, if◌then◌else◌,
}
use pantheon_tools_catalog.Text.{Text, codes, starts_with}
use pantheon_tools_catalog.Text.Find.{contains}
use pantheon_tools_catalog.Fs.{DirEntry, Dir, listed, end, entry, unlisted, file, text}
use pantheon_tools_catalog.Patterns.{Captures}
use pantheon_tools_catalog.Masking.{Span, masked_excerpt}
use pantheon_tools_catalog.Masking.Merged.{inside}
use pantheon_tools_catalog.Masking.Hidden.{Same, masked_excerpt-hides}
use pantheon_tools_catalog.Triage.Acc.{high, new}
use pantheon_tools_catalog.Triage.Ipv4.{is_public_ipv4}
use pantheon_tools_catalog.Triage.Ipv4.Blocks.{
  parts_of, AreOctets, address, Routable, is_public_ipv4-Routable,
}
use pantheon_tools_catalog.Triage.Scan as TriageScan
use pantheon_tools_catalog.Triage.Scan.{Detector}
use pantheon_tools_catalog.Glob.{glob_match}
use pantheon_tools_catalog.Walk.Spec.{collect}
use pantheon_tools_catalog.Triage.Results.{
  log_files, all_sights, all_findings, Reports, triage-all_findings,
}
use pantheon_tools_catalog.Triage.Ranked.{AreAddresses}
use pantheon_tools_catalog.Triage.Keeps.{scannable}
use pantheon_tools_catalog.Triage.Acc.{IpStat}
use pantheon_tools_catalog.Triage.Bounds.{triage-Bounded}
use pantheon_tools_catalog.Triage.Report.{triage}
use pantheon_tools_catalog.Secrets.Scan.{Ctx, rule_hits, scan_line}
use pantheon_tools_catalog.Secrets.{scan}
use pantheon_tools_catalog.Secrets.Tokens.{AreRuns, entropy_hit, suspicious, scan_line-suspicious}
use pantheon_tools_catalog.Secrets.Results.{all_found, scan-all_found}
use pantheon_tools_catalog.Examples.{meta_of}

-- A pattern that matches a word at the front of a line, and masks what follows it.
abbrev after_word : Text → Text → List Captures
after_word word line =
    if starts_with word line
    then (some (record { start = 0; stop = length line; matched = line })
        ∷ some (record { start = length word; stop = length line; matched = line })
        ∷ [])
      ∷ []
    else []

abbrev app_log : DirEntry
app_log = record {
  path = codes "/work/app.log";
  file_name = codes "app.log";
  metadata = some (meta_of file 40);
  stat = some (meta_of file 40);
  open_reads = none;
  contents = text (codes "token=abcdefgh\nsu: root\n");
}

abbrev logs : Dir
logs = listed (entry app_log unlisted end)

abbrev detectors : List Detector
detectors =
    record {
      id = codes "privilege";
      is_match = contains (codes "su:");
      captures_iter = λ _. [];
      severity = high;
      mask_group = 0;
    }
    ∷ record {
      id = codes "secret-in-log";
      is_match = λ _. false;
      captures_iter = after_word (codes "token=");
      severity = high;
      mask_group = 1;
    }
    ∷ []

abbrev triage_ctx : TriageScan.Ctx
triage_ctx = record {
  detectors = detectors;
  error_is_match = contains (codes "error");
  ip_find_iter = λ _. record { start = 0; stop = 7; matched = codes "8.8.8.8" } ∷ [];
  iso_captures = λ _. none;
  syslog_captures = λ _. none;
  name_glob = codes "*.log";
  max_files = 5;
  max_file_bytes = 1000;
  max_depth = 20;
  max_findings = 1;
  window_secs = 0;
}

few_logs : length (log_files triage_ctx logs) ≤ 5
unfolding glob_match collect
few_logs = omega arith

triage-all_findings_example :
    (addresses : List (Text × IpStat)) × AreAddresses (all_sights triage_ctx logs) addresses
    × Reports triage_ctx
        (all_findings triage_ctx logs addresses)
        (triage (codes "/work") 0 triage_ctx logs)
    × ((triage (codes "/work") 0 triage_ctx logs).public_ips
        ≡ map (λ (x : Text × IpStat). (x.0, (x.1).count)) (take 20 addresses))
triage-all_findings_example = triage-all_findings (codes "/work") 0 triage_ctx logs few_logs

triage-Bounded_example :
    ((triage (codes "/work") 0 triage_ctx logs).files_scanned
      ≡ min 5 (length (retain (scannable triage_ctx) (log_files triage_ctx logs))))
    × (length (TriageScan.walk triage_ctx logs 0 new).ips ≤ 4096)
    × (length (triage (codes "/work") 0 triage_ctx logs).findings ≤ 1)
    × (length (triage (codes "/work") 0 triage_ctx logs).public_ips ≤ 20)
triage-Bounded_example = triage-Bounded (codes "/work") 0 triage_ctx logs (omega arith)

is_public_ipv4-Routable_example : (is_public_ipv4 (codes "8.8.8.8") ≡ true) ↔ (
    (a : ℕ) × (b : ℕ) × (c : ℕ) × (d : ℕ) × AreOctets (parts_of (codes "8.8.8.8")) a b c d
    × Routable (address a b c d))
is_public_ipv4-Routable_example = is_public_ipv4-Routable (codes "8.8.8.8")

-- Two tokens that agree in the four characters that are shown.
abbrev token : Text
token = codes "abcde"

abbrev other_token : Text
other_token = codes "abcdZ"

abbrev whole : List Span
whole = (0, 5) ∷ []

agree_outside : (i : ℕ) → inside i whole ≡ false → Same token other_token i
agree_outside zero h = refl
agree_outside (suc zero) h = refl
agree_outside (suc (suc zero)) h = refl
agree_outside (suc (suc (suc zero))) h = refl
agree_outside (suc (suc (suc (suc zero)))) h = absurd (ground arith)
agree_outside (suc (suc (suc (suc (suc i))))) h = refl

agree_at_start : (i : ℕ) → 0 ≤ i → i < 0 + 4 → Same token other_token i
agree_at_start zero a b = refl
agree_at_start (suc zero) a b = refl
agree_at_start (suc (suc zero)) a b = refl
agree_at_start (suc (suc (suc zero))) a b = refl
agree_at_start (suc (suc (suc (suc zero)))) a b = absurd (omega arith)
agree_at_start (suc (suc (suc (suc (suc i))))) a b = absurd (omega arith)

masked_excerpt-hides_example : masked_excerpt token whole ≡ masked_excerpt other_token whole
masked_excerpt-hides_example =
    masked_excerpt-hides token other_token whole ((omega arith, omega arith), tt) agree_outside
      (agree_at_start, tt)

abbrev secrets_ctx : Ctx
secrets_ctx = record {
  rules =
      record {
        id = codes "generic-api-key";
        captures_iter = after_word (codes "token=");
        secret_group = 1;
      }
      ∷ [];
  high_entropy = λ _. true;
  name_glob = some (codes "*.log");
  max_matches = 1;
  max_file_bytes = 1000;
  max_depth = 20;
  allowlist = codes "EXAMPLE" ∷ [];
}

abbrev long_line : Text
long_line = codes "id abcdefghijklmnopqrstuvwxyz"

scan_line-suspicious_example :
    (runs : List Span) × AreRuns long_line runs
    × (scan_line secrets_ctx long_line
        ≡ rule_hits secrets_ctx long_line
          ++ map entropy_hit (retain (suspicious secrets_ctx long_line) runs))
scan_line-suspicious_example = scan_line-suspicious secrets_ctx long_line

scan-all_found_example :
    ((scan (codes "/work") secrets_ctx logs).found ≡ take 1 (all_found secrets_ctx logs))
    × ((scan (codes "/work") secrets_ctx logs).count ≡ min 1 (length (all_found secrets_ctx logs)))
    × ((scan (codes "/work") secrets_ctx logs).truncated
        ≡ leb 1 (length (all_found secrets_ctx logs)))
scan-all_found_example = scan-all_found (codes "/work") secrets_ctx logs
