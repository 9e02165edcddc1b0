-- ===== src/Triage/Results.antt =====
-- What log-triage reports.
use pantheon_tools_catalog.Prelude.{
  ℕ, suc, ◌+◌, ◌%◌, ◌≤◌, ◌≡◌, refl, sym, ap, ap₂, subst, ◌∙◌, true, false, ◌&&◌, ◌||◌, List, [],
  ◌∷◌, ◌++◌, map, arith, length, take, foldl, flat_map, min, leb, ltb, Bool-cases, inl, inr,
  if◌then◌else◌, unwrap_or, append-nil, append_assoc,
}
use pantheon_tools_catalog.Text.{Text}
use pantheon_tools_catalog.Map.{get}
use pantheon_tools_catalog.Serde.{usize_mod}
use pantheon_tools_catalog.Glob.{glob_match}
use pantheon_tools_catalog.Fs.{DirEntry, Metadata, Dir, is_file}
use pantheon_tools_catalog.Walk.Spec.{collect}
use pantheon_tools_catalog.Walk.Fold.{Folds, walk-foldl}
use pantheon_tools_catalog.Sort.{sort}
use pantheon_tools_catalog.Triage.Acc.{
  Severity, high, medium, info, Finding, IpStat, Acc, at, push, new,
}
use pantheon_tools_catalog.Triage.Scan.{Ctx, scan_file, visit, visitor, walk}
use pantheon_tools_catalog.Triage.Log.{with_severity, with_detector, Represents, new-Represents}
use pantheon_tools_catalog.Triage.Found.{file_findings, push_all-Represents, scan_file-Represents}
use pantheon_tools_catalog.Triage.Keeps.{scan_file-Counted}
use pantheon_tools_catalog.Triage.Assembly.{by_severity, assemble-cut}
use pantheon_tools_catalog.Triage.Sights.{Sight, file_sights, scan_files-note}
use pantheon_tools_catalog.Triage.Ranked.{AreAddresses, sort-AreAddresses}
use pantheon_tools_catalog.Triage.Report.{Output, ip_le, ip_finding, report, triage}

module _ (ctx : Ctx) where
  -- The files that the walk scans: the regular files whose name matches.
  abbrev pub candidates : DirEntry → Metadata → List DirEntry
  candidates e m = if is_file m && glob_match ctx.name_glob e.file_name then e ∷ [] else []

  abbrev pub log_files : Dir → List DirEntry
  log_files d = collect candidates ctx.max_depth d 0

  abbrev pub take_file : Acc → DirEntry → Acc
  take_file acc e =
      if leb ctx.max_files acc.files_scanned
      then record acc { files_truncated = true }
      else scan_file ctx e acc

  -- One more than the bound, once the bound was hit.
  abbrev progress : Acc → ℕ
  progress acc =
      if acc.files_truncated then suc ctx.max_files else min acc.files_scanned ctx.max_files

  visitor-Folds : Folds (visitor ctx) candidates take_file progress (suc ctx.max_files)
  unfolding visit
  visitor-Folds = record {
    visits = λ e m acc. elim (Bool-cases (is_file m && glob_match ctx.name_glob e.file_name)) [
      | inl chosen ↦ rw (visit, chosen) refl
      | inr other ↦ rw (visit, other) refl
    ];
    full_at = λ acc. ground arith;
    grows = λ acc e. ground (arith, scan_file-Counted ctx e acc);
  }

  abbrev scan_all : Acc → List DirEntry → Acc
  scan_all = foldl (λ acc e. scan_file ctx e acc)

  -- Below the bound every file is scanned.
  take_files-scan_all :
      (es : List DirEntry) (acc : Acc)
      → acc.files_scanned + length es ≤ ctx.max_files
      → foldl take_file acc es ≡ scan_all acc es
  take_files-scan_all [] acc h = refl
  take_files-scan_all (e ∷ es) acc h =
      let room : leb ctx.max_files acc.files_scanned ≡ false = ground arith in
      rw room (
        take_files-scan_all es (scan_file ctx e acc)
          (omega (arith, h, scan_file-Counted ctx e acc)))

  walk-scan_all :
      (d : Dir)
      → length (log_files d) ≤ ctx.max_files
      → walk ctx d 0 new ≡ scan_all new (log_files d)
  unfolding walk new
  walk-scan_all d h =
      walk-foldl visitor-Folds ctx.max_depth d 0 new (omega (arith, h))
      ∙ take_files-scan_all (log_files d) new (omega (arith, h))

  scan_all-Represents :
      (es : List DirEntry) (log : List Finding) (acc : Acc)
      → Represents ctx.max_findings log acc
      → Represents ctx.max_findings (log ++ flat_map (file_findings ctx) es) (scan_all acc es)
  scan_all-Represents [] log acc r = rw append-nil r
  scan_all-Represents (e ∷ es) log acc r =
      rw⁻¹ (append_assoc log (file_findings ctx e) (flat_map (file_findings ctx) es)) (
        scan_all-Represents es (log ++ file_findings ctx e) _
          (scan_file-Represents ctx e log acc r))

  scan_all-truncated :
      (es : List DirEntry) (acc : Acc) → (scan_all acc es).files_truncated ≡ acc.files_truncated
  scan_all-truncated [] acc = refl
  scan_all-truncated (e ∷ es) acc =
      scan_all-truncated es (scan_file ctx e acc) ∙ (scan_file-Counted ctx e acc).1

module _ (ctx : Ctx) where
  walk-open :
      (d : Dir)
      → length (log_files ctx d) ≤ ctx.max_files
      → (walk ctx d 0 new).files_truncated ≡ false
  unfolding new
  walk-open d h =
      ap (λ (acc : Acc). acc.files_truncated) (walk-scan_all ctx d h)
      ∙ scan_all-truncated ctx (log_files ctx d) new

module _ (ctx : Ctx) (d : Dir) where
  -- The public addresses in the log files, in the order of the walk.
  abbrev pub all_sights : List Sight
  all_sights = flat_map (file_sights ctx) (log_files ctx d)

  -- All that log-triage finds in a tree: what is in its log files, in the order of the walk, and one
  -- finding for each address.
  abbrev pub all_findings : List (Text × IpStat) → List Finding
  all_findings addresses =
      flat_map (file_findings ctx) (log_files ctx d) ++ map ip_finding addresses

  abbrev ranked : List (Text × IpStat)
  ranked = sort ip_le (walk ctx d 0 new).ips

  ranked-AreAddresses : length (log_files ctx d) ≤ ctx.max_files → AreAddresses all_sights ranked
  unfolding new
  ranked-AreAddresses h =
      subst (λ m. AreAddresses all_sights (sort ip_le m))
        (sym (
          ap (λ (acc : Acc). acc.ips) (walk-scan_all ctx d h)
          ∙ scan_files-note ctx (log_files ctx d) new))
        (sort-AreAddresses all_sights)

  reported-Represents :
      length (log_files ctx d) ≤ ctx.max_files
      → Represents ctx.max_findings
          (all_findings ranked)
          (foldl (λ a f. push ctx.max_findings f a) (walk ctx d 0 new) (map ip_finding ranked))
  reported-Represents h = push_all-Represents ctx (map ip_finding ranked) _ _ (
      subst (Represents ctx.max_findings (flat_map (file_findings ctx) (log_files ctx d)))
        (sym (walk-scan_all ctx d h))
        (scan_all-Represents ctx (log_files ctx d) [] new (new-Represents ctx.max_findings)))

push_all-truncated :
    (n : ℕ) (fs : List Finding) (acc : Acc)
    → (foldl (λ a f. push n f a) acc fs).files_truncated ≡ acc.files_truncated
unfolding push
push_all-truncated n [] acc = refl
push_all-truncated n (f ∷ fs) acc = push_all-truncated n fs (push n f acc)

-- What a report says of all findings.
abbrev pub Reports : Ctx → List Finding → Output → Type 0
Reports ctx all out =
    (out.findings ≡ take ctx.max_findings (by_severity all))
    × ((s : Severity) → at out.summary s ≡ length (with_severity s all) % usize_mod)
    × ((k : Text) → unwrap_or (get k out.by_detector) 0 ≡ length (with_detector k all) % usize_mod)
    × (out.truncated ≡ ltb ctx.max_findings (length all % usize_mod))

-- In a tree with no more than `max_files` files of a matching name: there is a list of addresses,
-- which are the first 4096 different public addresses in the log files, each with the number of its
-- occurrences modulo 2^64 and the place of the first one, more frequent ones before others and
-- equally frequent ones in the order of their texts. All findings are those in the log files, in the
-- order of the walk, and then one for each address of that list. The report lists the first
-- `max_findings` of them, high before medium before info; the summary counts all of them by
-- severity and by detector, modulo 2^32; `truncated` says whether there are more than
-- `max_findings`, by the same count; and `public_ips` are the first 20 addresses with their counts.
pub triage-all_findings :
    (root : Text) (minutes : ℕ) (ctx : Ctx) (d : Dir)
    → length (log_files ctx d) ≤ ctx.max_files
    → (addresses : List (Text × IpStat)) × AreAddresses (all_sights ctx d) addresses
      × Reports ctx (all_findings ctx d addresses) (triage root minutes ctx d)
      × ((triage root minutes ctx d).public_ips
          ≡ map (λ (x : Text × IpStat). (x.0, (x.1).count)) (take 20 addresses))
unfolding triage report
triage-all_findings root minutes ctx d h =
    let r = reported-Represents ctx d h in
    (
      ranked ctx d,
      ranked-AreAddresses ctx d h,
      (
        rw (r.bucketed high, r.bucketed medium, r.bucketed info)
            (assemble-cut ctx.max_findings _ _ _),
        r.per_severity,
        r.per_detector,
        ap₂ (λ b k. b || ltb ctx.max_findings k)
            (push_all-truncated ctx.max_findings (map ip_finding (ranked ctx d)) (walk ctx d 0 new)
              ∙ walk-open ctx d h)
            r.totalled,
      ),
      refl,
    )
