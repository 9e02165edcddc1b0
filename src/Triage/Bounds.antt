-- ===== src/Triage/Bounds.antt =====
-- The bounds of a run of log-triage, in any tree.
use pantheon_tools_catalog.Prelude.{
  ℕ, ◌+◌, ◌≤◌, ◌<◌, ◌≡◌, refl, ap, sym, ◌∙◌, Bool, true, false, min, retain, leb→le, Bool-cases,
  inl, inr, if◌then◌else◌, List, [], ◌∷◌, map, arith, length, take, foldl, flat_map, leb, leb-false,
  ltb, ◌&&◌, if-induction, Option-induction, length-take,
}
use pantheon_tools_catalog.Text.{Text, lines}
use pantheon_tools_catalog.Glob.{glob_match}
use pantheon_tools_catalog.Fs.{DirEntry, Metadata, Dir, Contents, unreadable, binary, text, is_file}
use pantheon_tools_catalog.Walk.Invariant.{walk_induction}
use pantheon_tools_catalog.Walk.Fold.{Absorbs, walk-absorb}
use pantheon_tools_catalog.Serde.{usize_mod}
use pantheon_tools_catalog.Triage.Results.{candidates, log_files, take_file}
use pantheon_tools_catalog.Sort.{sort}
use pantheon_tools_catalog.Triage.Acc.{Finding, Acc, IpStat, push, new, increment}
use pantheon_tools_catalog.Triage.Scan.{
  Ctx, Errors, scan_lines, cutoff, scan_text, scan_file, visit, visitor, walk, max_distinct_ips,
}
use pantheon_tools_catalog.Triage.Keeps.{
  IpsBounded, IpsBounded-Kept, scannable, scan_file-Ticks, scan_lines_keeps, report_burst_keeps,
  scan_file-Counted,
}
use pantheon_tools_catalog.Triage.Assembly.{assemble-take}
use pantheon_tools_catalog.Triage.Report.{ip_finding, ip_le, report, triage}

module _ (ctx : Ctx) where
  scan_text-IpsBounded :
      (e : DirEntry) (c : Contents) (acc : Acc)
      → IpsBounded acc
      → IpsBounded (scan_text ctx e c acc)
  unfolding scan_text
  scan_text-IpsBounded e unreadable acc h = h
  scan_text-IpsBounded e binary acc h = h
  scan_text-IpsBounded e (text t) acc h =
      let kept = IpsBounded-Kept ctx in
      let counted : Acc = record acc { files_scanned = increment acc.files_scanned } in
      let start : Errors × Acc = (record { error_count = 0; error_first = [] }, counted) in
      report_burst_keeps ctx IpsBounded kept e.path
        (scan_lines ctx e.path (cutoff ctx (lines t)) 0 (lines t) start)
        (scan_lines_keeps ctx IpsBounded kept e.path (cutoff ctx (lines t)) 0 (lines t) start h)

  scan_file-IpsBounded :
      (e : DirEntry) (acc : Acc) → IpsBounded acc → IpsBounded (scan_file ctx e acc)
  unfolding scan_file
  scan_file-IpsBounded e acc h =
      Option-induction IpsBounded e.stat _ _ (λ _. h)
        (λ m _.
          if-induction IpsBounded (ltb ctx.max_file_bytes m.len) _ _ (λ _. h)
            (λ _. scan_text-IpsBounded e e.contents acc h))

  abbrev Bounded : Acc → Type 0
  Bounded acc = (acc.files_scanned ≤ ctx.max_files) × IpsBounded acc

  visit-Bounded :
      (e : DirEntry) (m : Metadata) (acc : Acc) → Bounded acc → Bounded (visit ctx e m acc)
  unfolding visit
  visit-Bounded e m acc (n, h) =
      if-induction Bounded (is_file m && glob_match ctx.name_glob e.file_name) _ _
        (λ _.
          if-induction Bounded (leb ctx.max_files acc.files_scanned) _ _ (λ _. (n, h))
            (λ room. (
              omega (arith, leb-false, room, scan_file-Counted ctx e acc),
              scan_file-IpsBounded e acc h,
            )))
        (λ _. (n, h))

  walk-Bounded : (d : Dir) → Bounded (walk ctx d 0 new)
  unfolding walk new
  walk-Bounded d =
      walk_induction (visitor ctx) ctx.max_depth Bounded (λ e m acc _ h. visit-Bounded e m acc h) d
        0 new (omega arith, (tt, omega arith))

length-retain_cons :
    {A : Type 0} (p : A → Bool) (x : A) (xs : List A)
    → length (retain p (x ∷ xs)) ≡ (if p x then 1 else 0) + length (retain p xs)
length-retain_cons p x xs = ground arith

module _ (ctx : Ctx) where
  -- A step of the fold over the log files: past the bound nothing happens.
  abbrev next_file : Acc → DirEntry → Acc
  next_file acc e = if acc.files_truncated then acc else take_file ctx acc e

  visitor-Absorbs : Absorbs (visitor ctx) (candidates ctx) next_file
  unfolding visit
  visitor-Absorbs = record {
    open_visit = λ e m acc room.
        elim (Bool-cases (is_file m && glob_match ctx.name_glob e.file_name)) [
          | inl chosen ↦ rw (visit, chosen, room) refl
          | inr other ↦ rw (visit, other) refl
        ];
    full_step = λ acc e full. rw full refl;
  }

  -- Once the walk was cut, the bound was reached.
  abbrev Capped : Acc → Type 0
  Capped acc =
      (acc.files_scanned ≤ ctx.max_files)
      × (acc.files_truncated ≡ true → acc.files_scanned ≡ ctx.max_files)

  fold-files_scanned :
      ctx.max_files < usize_mod
      → (es : List DirEntry) (acc : Acc) → Capped acc
      → (foldl next_file acc es).files_scanned
        ≡ min ctx.max_files (acc.files_scanned + length (retain (scannable ctx) es))
  fold-files_scanned small [] acc (le, full) = omega arith
  fold-files_scanned small (e ∷ es) acc (le, full) = elim (Bool-cases acc.files_truncated) [
    | inl cut ↦
        then_rest acc (stopped cut) (fold-files_scanned small es acc (le, full))
          (omega (arith, full cut, length-retain_cons (scannable ctx) e es))
    | inr running ↦ elim (Bool-cases (leb ctx.max_files acc.files_scanned)) [
      | inl reached ↦
          let there : acc.files_scanned ≡ ctx.max_files = omega (arith, leb→le, reached) in
          then_rest (record acc { files_truncated = true }) (going running ∙ ended reached)
            (fold-files_scanned small es (record acc { files_truncated = true }) (le, λ _. there))
            (omega (arith, there, length-retain_cons (scannable ctx) e es))
      | inr room ↦
          let below : acc.files_scanned < ctx.max_files = omega (arith, leb-false, room) in
          let open_still = (scan_file-Counted ctx e acc).1 ∙ running in
          then_rest (scan_file ctx e acc) (going running ∙ scanned room)
            (fold-files_scanned small es (scan_file ctx e acc) (
              omega (arith, below, scan_file-Counted ctx e acc),
              λ h. absurd (ground (arith, sym open_still ∙ h)),
            ))
            (ground (
              arith,
              below,
              small,
              scan_file-Ticks ctx e acc,
              length-retain_cons (scannable ctx) e es,
            ))
    ]
  ]
    where
      stopped : acc.files_truncated ≡ true → next_file acc e ≡ acc
      stopped h = ap (λ b. if b then acc else take_file ctx acc e) h

      going : acc.files_truncated ≡ false → next_file acc e ≡ take_file ctx acc e
      going h = ap (λ b. if b then acc else take_file ctx acc e) h

      ended :
          leb ctx.max_files acc.files_scanned ≡ true
          → take_file ctx acc e ≡ record acc { files_truncated = true }
      ended h = ap (λ b. if b then record acc { files_truncated = true } else scan_file ctx e acc) h

      scanned :
          leb ctx.max_files acc.files_scanned ≡ false → take_file ctx acc e ≡ scan_file ctx e acc
      scanned h =
          ap (λ b. if b then record acc { files_truncated = true } else scan_file ctx e acc) h

      then_rest :
          (next : Acc)
          → next_file acc e ≡ next
          → (foldl next_file next es).files_scanned
            ≡ min ctx.max_files (next.files_scanned + length (retain (scannable ctx) es))
          → min ctx.max_files (next.files_scanned + length (retain (scannable ctx) es))
            ≡ min ctx.max_files (acc.files_scanned + length (retain (scannable ctx) (e ∷ es)))
          → (foldl next_file acc (e ∷ es)).files_scanned
            ≡ min ctx.max_files (acc.files_scanned + length (retain (scannable ctx) (e ∷ es)))
      then_rest next step rest same =
          ap (λ (a : Acc). (foldl next_file a es).files_scanned) step ∙ rest ∙ same

  walk-files_scanned :
      ctx.max_files < usize_mod
      → (d : Dir)
      → (walk ctx d 0 new).files_scanned
        ≡ min ctx.max_files (length (retain (scannable ctx) (log_files ctx d)))
  unfolding walk new
  walk-files_scanned small d =
      ap (λ (acc : Acc). acc.files_scanned) (walk-absorb visitor-Absorbs ctx.max_depth d 0 new)
      ∙ fold-files_scanned small (log_files ctx d) new
          (omega arith, λ h. absurd (ground (arith, h)))
      ∙ omega arith

push_all-files_scanned :
    (n : ℕ) (fs : List Finding) (acc : Acc)
    → (foldl (λ a f. push n f a) acc fs).files_scanned ≡ acc.files_scanned
unfolding push
push_all-files_scanned n [] acc = refl
push_all-files_scanned n (f ∷ fs) acc = push_all-files_scanned n fs (push n f acc)

length-map : {A B : Type 0} (f : A → B) (xs : List A) → length (map f xs) ≡ length xs
length-map f [] = refl
length-map f (x ∷ xs) = omega (arith, length-map f xs)

-- For each tree, where `max_files` is a `usize`: a run scans the files of a matching name that are
-- small enough and text, and ends its count of them at `max_files`; it keeps no more than 4096
-- addresses, and reports no more than `max_findings` findings and 20 addresses.
pub triage-Bounded :
    (root : Text) (minutes : ℕ) (ctx : Ctx) (d : Dir)
    → ctx.max_files < usize_mod
    → ((triage root minutes ctx d).files_scanned
        ≡ min ctx.max_files (length (retain (scannable ctx) (log_files ctx d))))
      × (length (walk ctx d 0 new).ips ≤ max_distinct_ips)
      × (length (triage root minutes ctx d).findings ≤ ctx.max_findings)
      × (length (triage root minutes ctx d).public_ips ≤ 20)
unfolding triage report
triage-Bounded root minutes ctx d small =
    let acc = walk ctx d 0 new in
    let ips = sort ip_le acc.ips in
    let fs = map ip_finding ips in
    let b = (foldl (λ a f. push ctx.max_findings f a) acc fs).buckets in
    let buckets = b.at_high ∷ b.at_medium ∷ b.at_info ∷ [] in
    let (_, (_, addresses)) = walk-Bounded ctx d in
    (
      push_all-files_scanned ctx.max_findings fs acc ∙ walk-files_scanned ctx small d,
      addresses,
      rw (assemble-take ctx.max_findings buckets [] (omega arith))
          (omega (arith, length-take ctx.max_findings (flat_map (λ b. b) buckets))),
      omega (
        arith,
        length-map {B = Text × ℕ} (λ (x : Text × IpStat). (x.0, (x.1).count)) (take 20 ips),
        length-take 20 ips,
      ),
    )
