-- ===== src/Net/PortScan/Counts.antt =====
-- Which ports a range names, and what a scan counts.
use pantheon_tools_catalog.Prelude.{
  ℕ, zero, suc, ◌+◌, ◌-◌, ◌^◌, ◌≤◌, ◌<◌, ◌≡◌, ◌↔◌, refl, sym, ap, true, not, ◌||◌, List, [], ◌∷◌,
  ◌++◌, length, length-append, In, is_empty, ltb, ok_or, Result, ok, err, ◌>>=◌, arith, inl, inr,
  Option-cases, compare-cases, IfOk, IfOk-ok, IfOk-bind, IfOk-ensure,
}
use pantheon_tools_catalog.Text.{Text, trim, parse_uint}
use pantheon_tools_catalog.Net.PortScan.{
  Error, Network, Open, Output, split_dash, from_port, parse_range, scan_ports, scan, no_dash,
  bad_low, bad_high, out_of_bounds, no_ports, too_many,
}

from_port-In : (lo n p : ℕ) → In p (from_port lo n) ↔ ((lo ≤ p) × (p < lo + n))
unfolding from_port
from_port-In lo zero p = (λ h. absurd h, λ (a, b). absurd (omega arith))
from_port-In lo (suc n) p =
    let (to, from) = from_port-In (suc lo) n p in
    (
      elim [
        | inl e ↦ (omega arith, omega arith)
        | inr h ↦ let (a, b) = to h in (omega arith, omega arith)
      ],
      λ (a, b). elim (compare-cases lo p) [
        | inl (_, above) ↦ inr (from (omega arith, omega arith))
        | inr (inl (_, e)) ↦ inl (sym e)
        | inr (inr (_, below)) ↦ absurd (omega arith)
      ],
    )

length-from_port : (lo n : ℕ) → length (from_port lo n) ≡ n
unfolding from_port
length-from_port lo zero = refl
length-from_port lo (suc n) = ap suc (length-from_port (suc lo) n)

-- The ports of a range that is accepted.
abbrev pub IsRange : List ℕ → Type 0
IsRange ports =
    (lo : ℕ) × (hi : ℕ) × (1 ≤ lo)
    × (lo ≤ hi)
    × (hi ≤ 65535)
    × (length ports ≡ hi - lo + 1)
    × ((p : ℕ) → In p ports ↔ ((lo ≤ p) × (p ≤ hi)))

in_bounds :
    (lo hi : ℕ)
    → not (ltb lo 1 || ltb 65535 hi || ltb hi lo) ≡ true
    → (1 ≤ lo) × (lo ≤ hi) × (hi ≤ 65535)
in_bounds lo hi h = ground arith

from_port-IsRange :
    (lo hi : ℕ) → (1 ≤ lo) × (lo ≤ hi) × (hi ≤ 65535) → IsRange (from_port lo (hi - lo + 1))
from_port-IsRange lo hi (a, b, c) = (
  lo,
  hi,
  a,
  b,
  c,
  length-from_port lo (hi - lo + 1),
  λ p.
      let (to, from) = from_port-In lo (hi - lo + 1) p in
      (λ h. let (low, high) = to h in (low, omega arith), λ (low, high). from (low, omega arith)),
)

-- A range that is accepted lies within 1 to 65535 and names each port between its ends, these
-- included, once.
pub parse_range-IsRange : (s : Text) (ports : List ℕ) → parse_range s ≡ ok ports → IsRange ports
unfolding parse_range
parse_range-IsRange s ports e = IfOk-ok IsRange (parse_range s) ports e (
    IfOk-bind IsRange (ok_or (split_dash s) no_dash) _ λ (lo_text, hi_text).
      IfOk-bind IsRange (ok_or (parse_uint (2 ^ 32) (trim lo_text)) bad_low) _ λ lo.
        IfOk-bind IsRange (ok_or (parse_uint (2 ^ 32) (trim hi_text)) bad_high) _ λ hi.
          IfOk-ensure IsRange _ out_of_bounds _ λ h. from_port-IsRange lo hi (in_bounds lo hi h))

scan_ports-counts :
    (net : Network) (host : Text) (timeout : ℕ) (ports : List ℕ) (opened : List Open) (closed : ℕ)
    {result : List Open × ℕ}
    → scan_ports net host timeout ports opened closed ≡ ok result
    → length result.0 + result.1 ≡ length opened + closed + length ports
unfolding scan_ports
scan_ports-counts net host timeout [] opened closed e = ground arith
scan_ports-counts net host timeout (port ∷ ports) opened closed {result} e =
    elim (Option-cases (net.resolve host port)) [
      | inl gone ↦ absurd (ground (arith, rw (scan_ports, gone) at e))
      | inr (addr, found) ↦ elim (Option-cases (net.connect addr timeout)) [
        | inl shut ↦ omega (
          arith,
          scan_ports-counts net host timeout ports opened (closed + 1)
              (rw (scan_ports, found, shut) at e),
        )
        | inr (t, made) ↦
            let now : Open = record { port = port; latency_ms = t } in
            omega (
              arith,
              scan_ports-counts net host timeout ports (opened ++ now ∷ []) closed
                  (rw (scan_ports, found, made) at e),
              length-append opened (now ∷ []),
            )
      ]
    ]

not_empty : (xs : List ℕ) → not (is_empty xs) ≡ true → 1 ≤ length xs
not_empty [] h = ground arith
not_empty (x ∷ xs) h = omega arith

-- The counts of a scan.
abbrev pub Adds : ℕ → List ℕ → Output → Type 0
Adds max_ports ports out =
    (out.open_count + out.closed_count ≡ out.scanned)
    × (out.scanned ≡ length ports)
    × (1 ≤ out.scanned)
    × (out.scanned ≤ max_ports)

-- A scan that answers has found each of its ports open or closed, and it scans at least one port and
-- at most `max_ports`.
pub scan-Adds :
    (net : Network) (host : Text) (max_ports timeout : ℕ) (ports : List ℕ) (out : Output)
    → scan net host max_ports timeout ports ≡ ok out
    → Adds max_ports ports out
unfolding scan
scan-Adds net host max_ports timeout ports out e =
    IfOk-ok (Adds max_ports ports) (scan net host max_ports timeout ports) out e (
      IfOk-ensure (Adds max_ports ports) (not (is_empty ports)) no_ports _ λ some_port.
        IfOk-ensure (Adds max_ports ports) (not (ltb max_ports (length ports))) too_many _
          λ fits. counted (scan_ports net host timeout ports [] 0) refl some_port fits)
  where
    counted :
        (r : Result Error (List Open × ℕ))
        → scan_ports net host timeout ports [] 0 ≡ r
        → not (is_empty ports) ≡ true
        → not (ltb max_ports (length ports)) ≡ true
        → IfOk (Adds max_ports ports) (
            r >>= λ (opened, closed). ok (record {
              host = host;
              scanned = length ports;
              open_count = length opened;
              open_ports = opened;
              closed_count = closed;
            }))
    counted (err e) q some_port fits = tt
    counted (ok (opened, closed)) q some_port fits = (
      omega (arith, scan_ports-counts net host timeout ports [] 0 q),
      refl,
      not_empty ports some_port,
      ground arith,
    )
