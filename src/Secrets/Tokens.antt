-- ===== src/Secrets/Tokens.antt =====
-- The entropy heuristic of secret-scan: the runs of token bytes, and which of them are hits.
use pantheon_tools_catalog.Prelude.{
  ℕ, zero, suc, ◌+◌, ◌-◌, ◌≤◌, ◌<◌, ◌≡◌, refl, ap, subst, ◌∙◌, Bool, true, false, not, ◌&&◌, ◌||◌,
  none, some, List, [], ◌∷◌, ◌++◌, map, arith, retain, foldl, All, all, ltb, leb, if◌then◌else◌,
  if-induction, Bool-cases, inl, inr, append-nil, append_assoc, All-append,
}
use pantheon_tools_catalog.Text.{Text}
use pantheon_tools_catalog.Masking.{Span, slice}
use pantheon_tools_catalog.Masking.Merged.{inside}
use pantheon_tools_catalog.Secrets.Scan.{
  Ctx, Hit, entropy_rule, entropy_min_len, is_token_byte, rule_hits, token_runs, overlaps,
  token_step, scan_line,
}

-- Whether the line has a token byte at a place.
abbrev pub token_at : Text → ℕ → Bool
token_at [] k = false
token_at (c ∷ s) zero = is_token_byte c
token_at (c ∷ s) (suc k) = token_at s k

-- The runs begin not before the cursor, none is empty, and no two touch.
abbrev pub Separate : ℕ → List Span → Type 0
Separate cursor [] = Unit {0}
Separate cursor ((s, e) ∷ rest) = (cursor ≤ s) × (s < e) × Separate (suc e) rest

Separate-weaken : (c d : ℕ) (xs : List Span) → c ≤ d → Separate d xs → Separate c xs
Separate-weaken c d [] le h = tt
Separate-weaken c d ((s, e) ∷ xs) le (a, b, r) = (omega arith, b, r)

inside-Separate : (k c : ℕ) (xs : List Span) → k < c → Separate c xs → inside k xs ≡ false
inside-Separate k c [] lt h = refl
inside-Separate k c ((s, e) ∷ xs) lt (a, b, r) = ground (arith, inside-Separate k (suc e) xs)

mutual
  unfolding token_runs

  runs-Separate : (i : ℕ) (s : Text) → Separate i (token_runs i none s)
  runs-Separate i [] = tt
  runs-Separate i (c ∷ s) = elim (Bool-cases (is_token_byte c)) [
    | inl token ↦ rw (token_runs, token) (run-Separate (suc i) i s (omega arith))
    | inr other ↦
        rw (token_runs, other) (Separate-weaken i (suc i) _ (omega arith) (runs-Separate (suc i) s))
  ]

  run-Separate : (i start : ℕ) (s : Text) → start < i → Separate start (token_runs i (some start) s)
  run-Separate i start [] lt = (omega arith, lt, tt)
  run-Separate i start (c ∷ s) lt = elim (Bool-cases (is_token_byte c)) [
    | inl token ↦ rw (token_runs, token) (run-Separate (suc i) start s (omega arith))
    | inr other ↦ rw (token_runs, other) (omega arith, lt, runs-Separate (suc i) s)
  ]

run-began :
    (i start k : ℕ) (s : Text) → start ≤ k → k < i → inside k (token_runs i (some start) s) ≡ true
unfolding token_runs
run-began i start k [] le lt = ground arith
run-began i start k (c ∷ s) le lt = elim (Bool-cases (is_token_byte c)) [
  | inl token ↦ rw (token_runs, token) (run-began (suc i) start k s le (omega arith))
  | inr other ↦ rw (token_runs, other) (ground arith)
]

mutual
  unfolding token_runs

  runs-token_at : (i m : ℕ) (s : Text) → inside (i + m) (token_runs i none s) ≡ token_at s m
  runs-token_at i m [] = refl
  runs-token_at i zero (c ∷ s) = elim (Bool-cases (is_token_byte c)) [
    | inl token ↦ rw (token_runs, token) (run-began (suc i) i (i + 0) s (omega arith) (omega arith))
    | inr other ↦
        rw (token_runs, other)
          (inside-Separate (i + 0) (suc i) _ (omega arith) (runs-Separate (suc i) s))
  ]
  runs-token_at i (suc m) (c ∷ s) =
      let e : i + suc m ≡ suc i + m = omega arith in
      rw e (elim (Bool-cases (is_token_byte c)) [
        | inl token ↦ rw (token_runs, token) (run-token_at (suc i) i m s (omega arith))
        | inr other ↦ rw (token_runs, other) (runs-token_at (suc i) m s)
      ])

  run-token_at :
      (i start m : ℕ) (s : Text)
      → start < i
      → inside (i + m) (token_runs i (some start) s) ≡ token_at s m
  run-token_at i start m [] lt = ground arith
  run-token_at i start zero (c ∷ s) lt = elim (Bool-cases (is_token_byte c)) [
    | inl token ↦
        rw (token_runs, token) (run-began (suc i) start (i + 0) s (omega arith) (omega arith))
    | inr other ↦
        rw (token_runs, other)
          (ground (
            arith,
            inside-Separate (i + 0) (suc i) (token_runs (suc i) none s),
            runs-Separate (suc i) s,
          ))
  ]
  run-token_at i start (suc m) (c ∷ s) lt =
      let e : i + suc m ≡ suc i + m = omega arith in
      rw e (elim (Bool-cases (is_token_byte c)) [
        | inl token ↦ rw (token_runs, token) (run-token_at (suc i) start m s (omega arith))
        | inr other ↦ rw (token_runs, other) (ground (arith, runs-token_at (suc i) m s))
      ])

-- The runs are the maximal ones: they cover exactly the token bytes of the line, in order, none is
-- empty, and between two of them stands another byte.
pub token_runs-token_at :
    (line : Text)
    → Separate 0 (token_runs 0 none line)
      × ((k : ℕ) → inside k (token_runs 0 none line) ≡ token_at line k)
token_runs-token_at line = (
  runs-Separate 0 line,
  λ k.
      let e : 0 + k ≡ k = omega arith in
      subst (λ n. inside n (token_runs 0 none line) ≡ token_at line k) e (runs-token_at 0 k line),
)

abbrev pub entropy_hit : Span → Hit
entropy_hit span = record { rule = entropy_rule; span = span }

module _ (ctx : Ctx) (line : Text) where
  -- The two have no place in common, by their ends.
  abbrev pub apart : ℕ → ℕ → Hit → Bool
  apart s e h = leb e ((h.span).0) || leb ((h.span).1) s

  -- A run of at least 20 bytes that is apart from each hit of a rule and whose entropy is high.
  abbrev pub suspicious : Span → Bool
  suspicious (s, e) =
      leb entropy_min_len (e - s)
      && all (apart s e) (rule_hits ctx line)
      && ctx.high_entropy (slice line s e)

  overlaps-apart : (s e : ℕ) (hits : List Hit) → not (overlaps (s, e) hits) ≡ all (apart s e) hits
  unfolding overlaps
  overlaps-apart s e [] = refl
  overlaps-apart s e (h ∷ hits) = ground (arith, overlaps-apart s e hits)

  abbrev EndsBy : ℕ → Hit → Type 0
  EndsBy c h = (h.span).1 ≤ c

  -- Hits that end before a run do not overlap it.
  overlaps-before :
      (s e c : ℕ) (hits earlier : List Hit)
      → c ≤ s
      → All (EndsBy c) earlier
      → overlaps (s, e) (hits ++ earlier) ≡ overlaps (s, e) hits
  unfolding overlaps
  overlaps-before s e c [] [] le a = refl
  overlaps-before s e c [] (h ∷ earlier) le (a, r) =
      ground (arith, overlaps-before s e c [] earlier le r)
  overlaps-before s e c (x ∷ hits) earlier le a =
      ap (λ b. (ltb ((x.span).0) e && ltb s ((x.span).1)) || b)
        (overlaps-before s e c hits earlier le a)

  EndsBy-weaken : (c d : ℕ) (hits : List Hit) → c ≤ d → All (EndsBy c) hits → All (EndsBy d) hits
  EndsBy-weaken c d [] le a = tt
  EndsBy-weaken c d (h ∷ hits) le (a, r) = (omega arith, EndsBy-weaken c d hits le r)

  token_step-suspicious :
      (c s e : ℕ) (earlier : List Hit)
      → c ≤ s
      → All (EndsBy c) earlier
      → token_step ctx line (rule_hits ctx line ++ earlier) (s, e)
        ≡ rule_hits ctx line
          ++ (earlier ++ (if suspicious (s, e) then entropy_hit (s, e) ∷ [] else []))
  unfolding token_step
  token_step-suspicious c s e earlier le a =
      rw (token_step, overlaps-before s e c (rule_hits ctx line) earlier le a)
        (ground (
          arith,
          overlaps-apart s e (rule_hits ctx line),
          append-nil earlier,
          append_assoc (rule_hits ctx line) earlier (entropy_hit (s, e) ∷ []),
        ))

  token_steps-suspicious :
      (c : ℕ) (runs : List Span) (earlier : List Hit)
      → Separate c runs
      → All (EndsBy c) earlier
      → foldl (token_step ctx line) (rule_hits ctx line ++ earlier) runs
        ≡ rule_hits ctx line ++ (earlier ++ map entropy_hit (retain suspicious runs))
  token_steps-suspicious c [] earlier sep a = rw append-nil refl
  token_steps-suspicious c ((s, e) ∷ runs) earlier (le, lt, sep) a =
      let here : List Hit = if suspicious (s, e) then entropy_hit (s, e) ∷ [] else [] in
      let ends : All (EndsBy (suc e)) here =
        if-induction (All (EndsBy (suc e))) (suspicious (s, e)) _ _ (λ _. (omega arith, tt))
          (λ _. tt) in
      let before = EndsBy-weaken c (suc e) earlier (omega arith) a in
      rw (token_step-suspicious c s e earlier le a) (
        token_steps-suspicious (suc e) runs (earlier ++ here) sep
          (All-append (EndsBy (suc e)) earlier here before ends)
        ∙ ap (λ l. rule_hits ctx line ++ l)
            (append_assoc earlier here (map entropy_hit (retain suspicious runs))
              ∙ ap (λ l. earlier ++ l) (ground arith)))

-- The runs of token bytes of a line, as a list that is told by the line alone: in order, none is
-- empty, between two of them stands another place, and together they cover the token bytes.
abbrev pub AreRuns : Text → List Span → Type 0
AreRuns line runs = Separate 0 runs × ((k : ℕ) → inside k runs ≡ token_at line k)

-- The hits of a line are those of the rules, then one for each maximal run of token bytes that is at
-- least 20 long, that has no place in common with a hit of a rule, and whose entropy is above the
-- threshold, in the order of the runs.
pub scan_line-suspicious :
    (ctx : Ctx) (line : Text)
    → (runs : List Span) × AreRuns line runs
      × (scan_line ctx line
          ≡ rule_hits ctx line ++ map entropy_hit (retain (suspicious ctx line) runs))
unfolding scan_line
scan_line-suspicious ctx line = (
  token_runs 0 none line,
  token_runs-token_at line,
  subst
      (λ hits.
        foldl (token_step ctx line) hits (token_runs 0 none line)
        ≡ rule_hits ctx line
          ++ map entropy_hit (retain (suspicious ctx line) (token_runs 0 none line)))
      (append-nil (rule_hits ctx line))
      (token_steps-suspicious ctx line 0 (token_runs 0 none line) [] (runs-Separate 0 line) tt),
)
