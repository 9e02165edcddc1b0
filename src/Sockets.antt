-- ===== src/Sockets.antt =====
-- tools/socket-inventory/src/main.rs
pub mod Address
pub mod Services
pub mod Budget
use pantheon_tools_catalog.Prelude.{
  ℕ, ◌≤◌, Bool, true, false, not, ◌&&◌, ◌||◌, Option, none, some, List, [], ◌∷◌, map, foldl, retain,
  length, take, is_empty, ltb, leb, if◌then◌else◌, unwrap_or, ok_or, ensure, and_then, Result, ok,
  err, ◌>>=◌, ◌>>◌,
}
use pantheon_tools_catalog.Text.{Text, codes, trim, text_eq}
use pantheon_tools_catalog.Map.{Map, insert}
use pantheon_tools_catalog.Serde.{Serde}
use pantheon_tools_catalog.Sockets.Address.{ParseIp, is_public}
use pantheon_tools_catalog.Sockets.Services.{OwnedSocket, Listed, services}

pub data ProcError : Type 0 where
  denied io_error : Text → ProcError

pub data Error : Type 0 where
  args_not_json args_not_object include_not_bool max_out_of_range : Error
  host_denied host_failed : Text → Error

pub record Connections : Type 0 where
  pub connection_count : ℕ
  pub connections_truncated : Bool
  pub connections : List OwnedSocket
  pub remote_peers : List Text

pub record Output : Type 0 where
  pub listening_sockets : ℕ
  pub services : List Listed
  pub service_count : ℕ
  pub owner_unknown : ℕ
  pub with_connections : Option Connections

abbrev pub is_listener : OwnedSocket → Bool
is_listener s = text_eq s.state (codes "LISTEN") || text_eq s.state (codes "UNCONN")

-- `BTreeSet<String>`, as the keys of a map
abbrev pub peer_set : List Text → Map (Unit {0})
peer_set = foldl (λ m p. insert p tt m) []

unfoldable pub connections_of : ParseIp → ℕ → List OwnedSocket → Connections
unfolding is_public insert
connections_of ip max_connections others =
    let established = retain (λ (s : OwnedSocket). not (is_empty s.remote_addr)) others in
    let public = retain (λ (s : OwnedSocket). is_public ip s.remote_addr) established in
    let peers = peer_set (map (λ (s : OwnedSocket). s.remote_addr) public) in
    record {
      connection_count = length established;
      connections_truncated = ltb max_connections (length established);
      connections = take max_connections established;
      remote_peers = map (λ (x : Text × Unit {0}). x.0) peers;
    }

abbrev pub no_pid : Option ℕ → Bool
no_pid none = true
no_pid (some _) = false

-- `run` after the host has listed its sockets
unfoldable pub inventory : ParseIp → Bool → ℕ → List OwnedSocket → Output
unfolding services connections_of text_eq
inventory ip include_connections max_connections sockets =
    let listeners = retain is_listener sockets in
    let others = retain (λ s. not (is_listener s)) sockets in
    let svc = services ip listeners in
    record {
      listening_sockets = length listeners;
      services = svc;
      service_count = length svc;
      owner_unknown =
          length (retain (λ (s : OwnedSocket). no_pid s.pid && is_empty s.process) listeners);
      with_connections =
          if include_connections then some (connections_of ip max_connections others) else none;
    }

module _ (j : Serde) where
  unfoldable pub include_arg : j.Value → Result Error Bool
  include_arg a = elim (j.get a (codes "include_connections")) [
    | none ↦ ok false
    | some v ↦ if j.is_null v then ok false else ok_or (j.as_bool v) include_not_bool
  ]

  unfoldable pub max_arg : j.Value → Result Error ℕ
  max_arg a = elim (j.get a (codes "max_connections")) [
    | none ↦ ok 500
    | some v ↦
        if j.is_null v
        then ok 500
        else ok_or (and_then (j.as_u64 v) (λ n. if leb 1 n && leb n 5000 then some n else none))
            max_out_of_range
  ]

abbrev pub host_error : ProcError → Error
host_error (denied m) = host_denied m
host_error (io_error m) = host_failed m

-- `list_owned_sockets` of the host is asked for the listening sockets only, or for all.
unfoldable pub run :
    Serde
    → ParseIp
    → (Bool → Result ProcError (List OwnedSocket))
    → Option Text
    → Result Error Output
unfolding inventory include_arg max_arg trim
run j ip list_owned_sockets raw = do
  let given = unwrap_or raw (codes "{}")
  a ← ok_or (j.from_str (if is_empty (trim given) then codes "{}" else given)) args_not_json
  ensure (j.is_object a) args_not_object
  include_connections ← include_arg j a
  max_connections ← max_arg j a
  sockets ← elim (list_owned_sockets (not include_connections)) [
    | ok s ↦ ok s
    | err e ↦ err (host_error e)
  ]
  ok (inventory ip include_connections max_connections sockets)
