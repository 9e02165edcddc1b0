-- ===== src/Net/Reach.antt =====
-- tools/port-check/src/main.rs, with the resolver, the connections and the clock as parameters.
use pantheon_tools_catalog.Prelude.{
  ℕ, Bool, true, false, not, Option, none, some, List, [], ◌∷◌, map, length, retain, filter_map,
  is_empty, ltb, unwrap_or, ok_or, ensure, Result, ok, err, ◌>>=◌, ◌>>◌,
}
use pantheon_tools_catalog.Text.{Text, codes}
use pantheon_tools_catalog.Serde.{Serde, u64_arg, array_arg}

-- `target.to_socket_addrs()`, and `connect_timeout` with the milliseconds since the start of the
-- check, and whether the connection was made
pub record Sockets : Type 1 where
  pub Addr : Type 0
  pub to_socket_addrs : Text → Result Text (List Addr)
  pub connect : Addr → ℕ → ℕ × Result Text (Unit {0})

pub data Error : Type 0 where
  args_not_json targets_missing no_targets too_many : Error

pub data Failure : Type 0 where
  no_addresses : Failure
  not_resolved not_connected : Text → Failure

module _ (net : Sockets) where
  open net use {Addr}

  pub record Check : Type 0 where
    pub target : Text
    pub addr : Option Addr
    pub reachable : Bool
    pub latency_ms : Option ℕ
    pub error : Option Failure

  pub record Output : Type 0 where
    pub count : ℕ
    pub reachable : ℕ
    pub results : List Check

  unfoldable pub unresolved : Text → Failure → Check
  unresolved target e = record {
    target = target;
    addr = none;
    reachable = false;
    latency_ms = none;
    error = some e;
  }

  unfoldable pub connect_to : Text → ℕ → Addr → Check
  connect_to target timeout addr =
      let (ms, made) = net.connect addr timeout in
      elim made [
        | ok _ ↦ record {
          target = target;
          addr = some addr;
          reachable = true;
          latency_ms = some ms;
          error = none;
        }
        | err e ↦ record {
          target = target;
          addr = some addr;
          reachable = false;
          latency_ms = some ms;
          error = some (not_connected e);
        }
      ]

  unfoldable pub check : ℕ → Text → Check
  unfolding unresolved connect_to
  check timeout target = elim (net.to_socket_addrs target) [
    | err e ↦ unresolved target (not_resolved e)
    | ok addrs ↦ elim addrs [
      | [] ↦ unresolved target no_addresses
      | addr ∷ _ ↦ connect_to target timeout addr
    ]
  ]

  unfoldable pub check_all : ℕ → List Text → Output
  unfolding check
  check_all timeout targets =
      let results = map (check timeout) targets in
      record {
        count = length results;
        reachable = length (retain (λ (r : Check). r.reachable) results);
        results = results;
      }

  unfoldable pub run : Serde → Option Text → Result Error Output
  unfolding check_all
  run j raw = do
    a ← ok_or (j.from_str (unwrap_or raw (codes "{}"))) args_not_json
    arr ← ok_or (array_arg j a "targets") targets_missing
    ensure (not (is_empty (filter_map j.as_str arr))) no_targets
    ensure (not (ltb 50 (length (filter_map j.as_str arr)))) too_many
    ok (check_all (unwrap_or (u64_arg j a "timeout_ms") 3000) (filter_map j.as_str arr))
