-- ===== src/Net/Sweep.antt =====
-- tools/net-sweep/src/main.rs. What the network answers is the parameter that port-scan has; it
-- answers the same question the same way during a run.
pub mod Fastest
use pantheon_tools_catalog.Prelude.{
  ℕ, ◌^◌, min, Bool, true, false, not, ◌&&◌, Option, none, some, List, [], ◌∷◌, ◌++◌, map, length,
  retain, filter_map, is_empty, leb, ltb, unwrap_or, ok_or, ensure, Result, ok, err, ◌>>=◌, ◌>>◌,
}
use pantheon_tools_catalog.Text.{Text, codes}
use pantheon_tools_catalog.Serde.{Serde, u64_arg, array_arg}
use pantheon_tools_catalog.Net.PortScan.{Network}

pub data Error : Type 0 where
  args_not_json hosts_missing no_hosts too_many no_valid_port : Error

-- `last_err`; the text of an error of `connect_timeout` is not modelled
pub data Failure : Type 0 where
  resolve_failed connect_failed : Failure

-- The variables of the loop.
pub record Probe : Type 0 where
  pub open_ports : List ℕ
  pub best_latency : Option ℕ
  pub last_err : Option Failure

pub record Swept : Type 0 where
  pub host : Text
  pub up : Bool
  pub open_ports : List ℕ
  pub latency_ms : Option ℕ
  pub error : Option Failure

pub record Output : Type 0 where
  pub host_count : ℕ
  pub up : ℕ
  pub results : List Swept

-- `best_latency.map_or(ms, |b| b.min(ms))`
unfoldable pub better : Option ℕ → ℕ → ℕ
better none ms = ms
better (some b) ms = min b ms

unfoldable pub failed : Failure → Probe → Probe
failed e p = record { open_ports = p.open_ports; best_latency = p.best_latency; last_err = some e }

unfoldable pub answered : ℕ → ℕ → Probe → Probe
unfolding better
answered port ms p = record {
  open_ports = p.open_ports ++ port ∷ [];
  best_latency = some (better p.best_latency ms);
  last_err = p.last_err;
}

abbrev pub nothing_yet : Probe
nothing_yet = record { open_ports = []; best_latency = none; last_err = none }

module _ (net : Network) where
  -- `for &port in ports`
  unfoldable pub probe : Text → ℕ → List ℕ → Probe → Probe
  unfolding failed answered
  probe host timeout [] p = p
  probe host timeout (port ∷ ports) p = elim (net.resolve host port) [
    | none ↦ probe host timeout ports (failed resolve_failed p)
    | some addr ↦ elim (net.connect addr timeout) [
      | some ms ↦ probe host timeout ports (answered port ms p)
      | none ↦ probe host timeout ports (failed connect_failed p)
    ]
  ]

  unfoldable pub sweep : Text → ℕ → List ℕ → Swept
  unfolding probe
  sweep host timeout ports =
      let p : Probe = probe host timeout ports nothing_yet in
      record {
        host = host;
        up = not (is_empty p.open_ports);
        open_ports = p.open_ports;
        latency_ms = p.best_latency;
        error = elim p.best_latency [ some _ ↦ none | none ↦ p.last_err ];
      }

abbrev default_ports : List ℕ
default_ports = 22 ∷ 80 ∷ 443 ∷ 3389 ∷ 8080 ∷ []

unfoldable pub read_ports : (j : Serde) → j.Value → Result Error (List ℕ)
read_ports j a = elim (array_arg j a "ports") [
  | none ↦ ok default_ports
  | some arr ↦
      let p = retain (λ n. leb 1 n && leb n 65535) (filter_map j.as_u64 arr) in
      ensure (not (is_empty p)) no_valid_port >> ok p
]

unfoldable pub sweep_all : Network → List Text → ℕ → List ℕ → Output
unfolding sweep
sweep_all net hosts timeout ports =
    let results = map (λ h. sweep net h timeout ports) hosts in
    record {
      host_count = length results;
      up = length (retain (λ (r : Swept). r.up) results);
      results = results;
    }

unfoldable pub run : Serde → Network → Option Text → Result Error Output
unfolding read_ports sweep_all
run j net raw = do
  a ← ok_or (j.from_str (unwrap_or raw (codes "{}"))) args_not_json
  arr ← ok_or (array_arg j a "hosts") hosts_missing
  ensure (not (is_empty (filter_map j.as_str arr))) no_hosts
  ensure (not (ltb 256 (length (filter_map j.as_str arr)))) too_many
  ports ← read_ports j a
  ok (sweep_all net (filter_map j.as_str arr) (unwrap_or (u64_arg j a "timeout_ms") 2000) ports)
