-- ===== src/Net/PortScan.antt =====
-- tools/port-scan/src/main.rs. What the network answers is a parameter.
pub mod Counts
use pantheon_tools_catalog.Prelude.{
  ℕ, zero, suc, ◌+◌, ◌-◌, ◌^◌, Bool, true, false, not, ◌&&◌, ◌||◌, Option, none, some, List, [],
  ◌∷◌, ◌++◌, length, retain, filter_map, is_empty, leb, ltb, ◌==◌, if◌then◌else◌, unwrap_or, ok_or,
  ensure, Result, ok, err, ◌>>=◌, ◌>>◌,
}
use pantheon_tools_catalog.Text.{Text, codes, trim, parse_uint}
use pantheon_tools_catalog.Serde.{Serde, str_arg, u64_arg, array_arg, as_usize}

pub data Error : Type 0 where
  args_not_json host_missing ports_missing no_dash bad_low bad_high out_of_bounds no_ports : Error
  too_many unresolved : Error

-- `s.split_once('-')`
unfoldable pub split_dash : Text → Option (Text × Text)
split_dash [] = none
split_dash (c ∷ s) =
    let later = split_dash s in
    if c == b'-'
    then some ([], s)
    else elim later [ none ↦ none | some (lo, hi) ↦ some (c ∷ lo, hi) ]

-- `n` numbers from `lo` on
unfoldable pub from_port : ℕ → ℕ → List ℕ
from_port lo zero = []
from_port lo (suc n) = lo ∷ from_port (suc lo) n

unfoldable pub parse_range : Text → Result Error (List ℕ)
unfolding split_dash from_port trim parse_uint
parse_range s = do
  (lo_text, hi_text) ← ok_or (split_dash s) no_dash
  lo ← ok_or (parse_uint (2 ^ 32) (trim lo_text)) bad_low
  hi ← ok_or (parse_uint (2 ^ 32) (trim hi_text)) bad_high
  ensure (not (ltb lo 1 || ltb 65535 hi || ltb hi lo)) out_of_bounds
  ok (from_port lo (hi - lo + 1))

-- `format!("{host}:{port}").to_socket_addrs()` and `TcpStream::connect_timeout`
pub record Network : Type 1 where
  pub Addr : Type 0
  pub resolve : Text → ℕ → Option Addr
  -- the time that a connection took, if it was made
  pub connect : Addr → ℕ → Option ℕ

pub record Open : Type 0 where
  pub port : ℕ
  pub latency_ms : ℕ

pub record Output : Type 0 where
  pub host : Text
  pub scanned : ℕ
  pub open_count : ℕ
  pub open_ports : List Open
  pub closed_count : ℕ

module _ (net : Network) where
  -- `for &port in &ports`
  unfoldable pub scan_ports : Text → ℕ → List ℕ → List Open → ℕ → Result Error (List Open × ℕ)
  scan_ports host timeout [] opened closed = ok (opened, closed)
  scan_ports host timeout (port ∷ ports) opened closed = elim (net.resolve host port) [
    | none ↦ err unresolved
    | some addr ↦ elim (net.connect addr timeout) [
      | some t ↦
          scan_ports host timeout ports (opened ++ record { port = port; latency_ms = t } ∷ [])
            closed
      | none ↦ scan_ports host timeout ports opened (closed + 1)
    ]
  ]

  unfoldable pub scan : Text → ℕ → ℕ → List ℕ → Result Error Output
  scan host max_ports timeout ports = do
    ensure (not (is_empty ports)) no_ports
    ensure (not (ltb max_ports (length ports))) too_many
    (opened, closed) ← scan_ports host timeout ports [] 0
    ok (record {
      host = host;
      scanned = length ports;
      open_count = length opened;
      open_ports = opened;
      closed_count = closed;
    })

-- The ports that the arguments name.
unfoldable pub read_ports : (j : Serde) → j.Value → Result Error (List ℕ)
unfolding parse_range
read_ports j a = elim (array_arg j a "ports") [
  | some arr ↦ ok (retain (λ n. leb 1 n && leb n 65535) (filter_map j.as_u64 arr))
  | none ↦ elim (str_arg j a "port_range") [ some r ↦ parse_range r | none ↦ err ports_missing ]
]

unfoldable pub run : Serde → Network → Option Text → Result Error Output
unfolding read_ports scan scan_ports
run j net raw = do
  a ← ok_or (j.from_str (unwrap_or raw (codes "{}"))) args_not_json
  host ← ok_or (str_arg j a "host") host_missing
  ports ← read_ports j a
  scan net host (as_usize (unwrap_or (u64_arg j a "max_ports") 1024))
      (unwrap_or (u64_arg j a "timeout_ms") 1500) ports
