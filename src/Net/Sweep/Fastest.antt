-- ===== src/Net/Sweep/Fastest.antt =====
-- Which ports a sweep reports, and how fast the host is.
use pantheon_tools_catalog.Prelude.{
  ℕ, min, ◌≤◌, ◌≡◌, ◌↔◌, ◌⊎◌, refl, sym, ap, ◌∙◌, Bool, true, false, not, Option, none, some, List,
  [], ◌∷◌, ◌++◌, append-nil, append_assoc, retain, and_then, is_empty, arith, In, inl, inr,
  Option-cases, compare-cases,
}
use pantheon_tools_catalog.Text.{Text}
use pantheon_tools_catalog.Net.PortScan.{Network}
use pantheon_tools_catalog.Net.Sweep.{
  Probe, Swept, resolve_failed, connect_failed, better, failed, answered, nothing_yet, probe, sweep,
}

-- The time that a connection to a port takes, for a port that accepts one.
abbrev pub time_of : Network → Text → ℕ → ℕ → Option ℕ
time_of net host timeout port = and_then (net.resolve host port) (λ addr. net.connect addr timeout)

abbrev pub accepts : Option ℕ → Bool
accepts none = false
accepts (some ms) = true

-- The least time of the ports that satisfy `S`, if one of them has a time.
abbrev pub Least : (ℕ → Option ℕ) → (ℕ → Type 0) → Option ℕ → Type 0
Least time S none = (port : ℕ) → S port → time port ≡ none
Least time S (some best) =
    ((port : ℕ) × S port × (time port ≡ some best))
    × ((port ms : ℕ) → S port → time port ≡ some ms → best ≤ ms)

Least-same :
    (time : ℕ → Option ℕ) (S T : ℕ → Type 0) (best : Option ℕ)
    → ((port : ℕ) → S port ↔ T port)
    → Least time S best
    → Least time T best
Least-same time S T none same h = λ port m. h port ((same port).1 m)
Least-same time S T (some best) same ((port, m, e), least) =
    ((port, (same port).0 m, e), λ q ms k. least q ms ((same q).1 k))

abbrev Also : (ℕ → Type 0) → ℕ → ℕ → Type 0
Also S port q = (q ≡ port) ⊎ S q

Least-silent :
    (time : ℕ → Option ℕ) (S : ℕ → Type 0) (best : Option ℕ) (port : ℕ)
    → time port ≡ none
    → Least time S best
    → Least time (Also S port) best
Least-silent time S none port e h = λ q m. elim m [ inl here ↦ ap time here ∙ e | inr s ↦ h q s ]
Least-silent time S (some best) port e ((p, m, k), least) = (
  (p, inr m, k),
  λ q ms s found. elim s [
    | inl here ↦ absurd (ground (arith, sym found ∙ ap time here ∙ e))
    | inr s' ↦ least q ms s' found
  ],
)

min-cases : (a b : ℕ) → (min a b ≡ a) ⊎ (min a b ≡ b)
min-cases a b = elim (compare-cases a b) [
  | inl (_, l) ↦ inl (omega arith)
  | inr (inl (_, e)) ↦ inl (omega arith)
  | inr (inr (_, g)) ↦ inr (omega arith)
]

Least-answered :
    (time : ℕ → Option ℕ) (S : ℕ → Type 0) (best : Option ℕ) (port ms : ℕ)
    → time port ≡ some ms
    → Least time S best
    → Least time (Also S port) (some (better best ms))
unfolding better
Least-answered time S none port ms e h = (
  (port, inl refl, e),
  λ q n s found. elim s [
    | inl here ↦ ground (arith, sym e ∙ sym (ap time here) ∙ found)
    | inr s' ↦ absurd (ground (arith, sym found ∙ h q s'))
  ],
)
Least-answered time S (some b) port ms e ((p, m, k), least) = (
  elim (min-cases b ms) [
    | inl first ↦ (p, inr m, k ∙ ap some (sym first))
    | inr second ↦ (port, inl refl, e ∙ ap some (sym second))
  ],
  λ q n s found. elim s [
    | inl here ↦ ground (arith, sym e ∙ sym (ap time here) ∙ found)
    | inr s' ↦ omega (arith, least q n s' found)
  ],
)

module _ (net : Network) (host : Text) (timeout : ℕ) where
  abbrev time : ℕ → Option ℕ
  time port = time_of net host timeout port

  abbrev answers : ℕ → Bool
  answers port = accepts (time_of net host timeout port)

  -- What holds of the variables after the ports of `S`.
  abbrev After : (ℕ → Type 0) → Probe → Type 0
  After S p = Least time S p.best_latency × (not (is_empty p.open_ports) ≡ accepts p.best_latency)

  not_empty-append : (xs : List ℕ) (x : ℕ) → not (is_empty (xs ++ x ∷ [])) ≡ true
  not_empty-append [] x = refl
  not_empty-append (y ∷ ys) x = refl

  swap-Also :
      (S : ℕ → Type 0) (port : ℕ) (ports : List ℕ) (q : ℕ)
      → (In q ports ⊎ Also S port q) ↔ (In q (port ∷ ports) ⊎ S q)
  swap-Also S port ports q = (
    elim [ inl m ↦ inl (inr m) | inr (inl e) ↦ inl (inl e) | inr (inr s) ↦ inr s ],
    elim [ inl (inl e) ↦ inr (inl e) | inl (inr m) ↦ inl m | inr s ↦ inr (inr s) ],
  )

  After-swap :
      (S : ℕ → Type 0) (port : ℕ) (ports : List ℕ) (p : Probe)
      → After (λ q. In q ports ⊎ Also S port q) p
      → After (λ q. In q (port ∷ ports) ⊎ S q) p
  After-swap S port ports p (h, up) =
      (Least-same _ _ _ p.best_latency (swap-Also S port ports) h, up)

  probe-After :
      (S : ℕ → Type 0) (ports : List ℕ) (p : Probe)
      → After S p
      → After (λ q. In q ports ⊎ S q) (probe net host timeout ports p)
  unfolding probe failed answered
  probe-After S [] p (h, up) =
      (Least-same _ S _ p.best_latency (λ q. (inr, elim [ inl m ↦ absurd m | inr s ↦ s ])) h, up)
  probe-After S (port ∷ ports) p (h, up) = elim (Option-cases (net.resolve host port)) [
    | inl gone ↦ After-swap S port ports (probe net host timeout (port ∷ ports) p) (
        rw (probe, gone)
          (probe-After (Also S port) ports (failed resolve_failed p)
            (Least-silent time S p.best_latency port (rw gone refl) h, up)))
    | inr (addr, found) ↦ elim (Option-cases (net.connect addr timeout)) [
      | inl shut ↦ After-swap S port ports (probe net host timeout (port ∷ ports) p) (
          rw (probe, found, shut)
            (probe-After (Also S port) ports (failed connect_failed p)
              (Least-silent time S p.best_latency port (rw (found, shut) refl) h, up)))
      | inr (ms, made) ↦ After-swap S port ports (probe net host timeout (port ∷ ports) p) (
          rw (probe, found, made)
            (probe-After (Also S port) ports (answered port ms p) (
              Least-answered time S p.best_latency port ms (rw (found, made) refl) h,
              not_empty-append p.open_ports port,
            )))
    ]
  ]

  probe-open :
      (ports : List ℕ) (p : Probe)
      → (probe net host timeout ports p).open_ports ≡ p.open_ports ++ retain answers ports
  unfolding probe failed answered
  probe-open [] p = sym (append-nil p.open_ports)
  probe-open (port ∷ ports) p = elim (Option-cases (net.resolve host port)) [
    | inl gone ↦ rw (probe, retain, gone) (probe-open ports (failed resolve_failed p))
    | inr (addr, found) ↦ elim (Option-cases (net.connect addr timeout)) [
      | inl shut ↦ rw (probe, retain, found, shut) (probe-open ports (failed connect_failed p))
      | inr (ms, made) ↦
          rw (probe, retain, found, made)
            (probe-open ports (answered port ms p) ∙ append_assoc p.open_ports (port ∷ []) _)
    ]
  ]

  abbrev pub Reported : List ℕ → Swept → Type 0
  Reported ports r =
      (r.open_ports ≡ retain answers ports)
      × Least time (λ q. In q ports) r.latency_ms
      × (r.up ≡ accepts r.latency_ms)

  -- For each network, host, timeout and list of ports: the open ports of a sweep are the ports that
  -- accept a connection, in their order; its latency is the time of one of these and no other port
  -- of the list takes less, and it is missing only where no port of the list accepts; the host is up
  -- exactly where there is a latency.
  pub sweep-Reported : (ports : List ℕ) → Reported ports (sweep net host timeout ports)
  unfolding sweep
  sweep-Reported ports =
      let (least, up) = probe-After (λ _. ⊥) ports nothing_yet ((λ q m. absurd m), refl) in
      (
        probe-open ports nothing_yet,
        Least-same time _ (λ q. In q ports) (sweep net host timeout ports).latency_ms
            (λ q. (elim [ inl m ↦ m | inr m ↦ absurd m ], inl)) least,
        up,
      )
