-- ===== src/Triage/Log.antt =====
-- The abstract view of `Acc`: the list of all findings that were pushed.
use pantheon_tools_catalog.Prelude.{
  ℕ, ◌%◌, ◌≤◌, ◌<◌, ◌≡◌, refl, sym, ap, ◌∙◌, Bool, true, false, List, [], ◌∷◌, ◌++◌, arith, length,
  take, take_all, take_full, append-nil, length-append, length-take, retain, ltb, Bool-cases, inl,
  inr, unwrap_or, if◌then◌else◌,
}
use pantheon_tools_catalog.Text.{Text, text_eq}
use pantheon_tools_catalog.Text.Order.{text_eq→≡}
use pantheon_tools_catalog.Serde.{usize_mod}
use pantheon_tools_catalog.Map.{Map, get, insert, get-insert}
use pantheon_tools_catalog.Triage.Acc.{
  Severity, high, medium, info, Finding, Acc, PerSeverity, LineDetector, line_detectors,
  zero_counts, det_ioc_ip, det_error_burst, at, put, push, new, increment,
}

abbrev pub same_severity : Severity → Severity → Bool
same_severity high high = true
same_severity medium medium = true
same_severity info info = true
same_severity _ _ = false

abbrev pub with_severity : Severity → List Finding → List Finding
with_severity s = retain (λ f. same_severity f.severity s)

abbrev pub with_detector : Text → List Finding → List Finding
with_detector d = retain (λ f. text_eq f.detector d)

-- The buckets hold the first findings of each severity, and the counters count all of them.
pub record Represents (max_findings : ℕ) (log : List Finding) (acc : Acc) : Type 0 where
  pub bucketed : (s : Severity) → at acc.buckets s ≡ take max_findings (with_severity s log)
  pub totalled : acc.total_findings ≡ length log % usize_mod
  pub per_severity :
      (s : Severity) → at acc.by_severity s ≡ length (with_severity s log) % usize_mod
  pub per_detector :
      (d : Text) → unwrap_or (get d acc.by_detector) 0 ≡ length (with_detector d log) % usize_mod

module _ {A : Type 0} where
  at-put :
      (s t : Severity) (a : A) (p : PerSeverity A)
      → at (put s a p) t ≡ (if same_severity s t then a else at p t)
  at-put high high a p = refl
  at-put high medium a p = refl
  at-put high info a p = refl
  at-put medium high a p = refl
  at-put medium medium a p = refl
  at-put medium info a p = refl
  at-put info high a p = refl
  at-put info medium a p = refl
  at-put info info a p = refl

  retain-append : (p : A → Bool) (xs ys : List A) → retain p (xs ++ ys) ≡ retain p xs ++ retain p ys
  retain-append p [] ys = refl
  retain-append p (x ∷ xs) ys = ground (arith, retain-append p xs ys)

  -- One more element, put in where there is room.
  pub take-push :
      (n : ℕ) (xs : List A) (x : A)
      → (if ltb (length (take n xs)) n then take n xs ++ x ∷ [] else take n xs)
        ≡ take n (xs ++ x ∷ [])
  take-push n xs x = elim (Bool-cases (ltb (length (take n xs)) n)) [
    | inl room ↦
        let short : length xs < n = ground (arith, length-take n xs) in
        rw (room, take_all n xs (omega arith))
          (sym (take_all n (xs ++ x ∷ []) (omega (arith, length-append xs (x ∷ [])))))
    | inr full ↦
        let long : n ≤ length xs = ground (arith, length-take n xs) in
        rw full (sym (take_full n xs (x ∷ []) long))
  ]

same_severity→≡ : (s t : Severity) → same_severity s t ≡ true → s ≡ t
same_severity→≡ high high h = refl
same_severity→≡ medium medium h = refl
same_severity→≡ info info h = refl
same_severity→≡ high medium h = absurd (ground arith)
same_severity→≡ high info h = absurd (ground arith)
same_severity→≡ medium high h = absurd (ground arith)
same_severity→≡ medium info h = absurd (ground arith)
same_severity→≡ info high h = absurd (ground arith)
same_severity→≡ info medium h = absurd (ground arith)

module _ (n : ℕ) (f : Finding) (log : List Finding) where
  -- An `Acc` that represents a list of findings (its buckets hold the first `n` of each severity, its
  -- counters count all of them, modulo 2^32) represents, after `push`, the list with the finding added.
  pub push-Represents :
      (acc : Acc) → Represents n log acc → Represents n (log ++ f ∷ []) (push n f acc)
  unfolding push
  push-Represents acc r = record {
    bucketed = bucketed';
    totalled = omega (arith, r.totalled, length-append log (f ∷ []));
    per_severity = per_severity';
    per_detector = per_detector';
  }
    where
      bucket : List Finding
      bucket = at acc.buckets f.severity

      pushed : List Finding
      pushed = if ltb (length bucket) n then bucket ++ f ∷ [] else bucket

      bucketed' :
          (s : Severity)
          → at (put f.severity pushed acc.buckets) s ≡ take n (with_severity s (log ++ f ∷ []))
      bucketed' s =
          rw
            (
              at-put f.severity s pushed acc.buckets,
              retain-append (λ (g : Finding). same_severity g.severity s) log (f ∷ []),
            )
            (elim (Bool-cases (same_severity f.severity s)) [
              | inl same ↦
                  rw (same, sym (same_severity→≡ f.severity s same), r.bucketed f.severity)
                    (take-push n (with_severity f.severity log) f)
              | inr other ↦ rw (other, append-nil) (r.bucketed s)
            ])

      per_severity' :
          (s : Severity)
          → at (put f.severity (increment (at acc.by_severity f.severity)) acc.by_severity) s
            ≡ length (with_severity s (log ++ f ∷ [])) % usize_mod
      per_severity' s =
          rw
            (
              at-put f.severity s (increment (at acc.by_severity f.severity)) acc.by_severity,
              retain-append (λ (g : Finding). same_severity g.severity s) log (f ∷ []),
            )
            (elim (Bool-cases (same_severity f.severity s)) [
              | inl same ↦
                  rw (same, sym (same_severity→≡ f.severity s same), r.per_severity f.severity)
                    (omega (arith, length-append (with_severity f.severity log) (f ∷ [])))
              | inr other ↦ rw (other, append-nil) (r.per_severity s)
            ])

      per_detector' :
          (d : Text)
          → unwrap_or
              (get d (
                insert f.detector
                  (increment (unwrap_or (get f.detector acc.by_detector) 0))
                  acc.by_detector))
              0
            ≡ length (with_detector d (log ++ f ∷ [])) % usize_mod
      per_detector' d =
          rw
            (
              get-insert f.detector d (increment (unwrap_or (get f.detector acc.by_detector) 0))
                  acc.by_detector,
              retain-append (λ (g : Finding). text_eq g.detector d) log (f ∷ []),
            )
            (elim (Bool-cases (text_eq f.detector d)) [
              | inl same ↦
                  rw (same, sym (text_eq→≡ f.detector d same), r.per_detector f.detector)
                    (omega (arith, length-append (with_detector f.detector log) (f ∷ [])))
              | inr other ↦ rw (other, append-nil) (r.per_detector d)
            ])

-- All counters of the map are 0.
abbrev Zeros : Map ℕ → Type 0
Zeros m = (d : Text) → unwrap_or (get d m) 0 ≡ 0

insert-Zeros : (k : Text) (m : Map ℕ) → Zeros m → Zeros (insert k 0 m)
insert-Zeros k m h d = let e : unwrap_or (get d m) 0 ≡ 0 = h d in ground (arith, get-insert k d 0 m)

zero_counts-Zeros : (ds : List LineDetector) (m : Map ℕ) → Zeros m → Zeros (zero_counts ds m)
zero_counts-Zeros [] m h = h
zero_counts-Zeros (d ∷ ds) m h = zero_counts-Zeros ds _ (insert-Zeros d.id m h)

pub new-Represents : (n : ℕ) → Represents n [] new
unfolding new get
new-Represents n = record {
  bucketed = elim [ high ↦ nothing | medium ↦ nothing | info ↦ nothing ];
  totalled = refl;
  per_severity = elim [ high ↦ refl | medium ↦ refl | info ↦ refl ];
  per_detector =
      insert-Zeros det_ioc_ip _
        (insert-Zeros det_error_burst _ (zero_counts-Zeros line_detectors [] (λ d. refl)));
}
  where
    nothing : ◌≡◌ {A = List Finding} [] (take n [])
    nothing = sym (take_all n [] (omega arith))

-- What is counted beside the findings does not matter.
pub Represents-beside :
    (n : ℕ) (log : List Finding) (acc acc' : Acc)
    → acc'.buckets ≡ acc.buckets
    → acc'.total_findings ≡ acc.total_findings
    → acc'.by_severity ≡ acc.by_severity
    → acc'.by_detector ≡ acc.by_detector
    → Represents n log acc
    → Represents n log acc'
Represents-beside n log acc acc' b t s d r = record {
  bucketed = λ v. ap (λ p. at p v) b ∙ r.bucketed v;
  totalled = t ∙ r.totalled;
  per_severity = λ v. ap (λ p. at p v) s ∙ r.per_severity v;
  per_detector = λ v. ap (λ m. unwrap_or (get v m) 0) d ∙ r.per_detector v;
}
