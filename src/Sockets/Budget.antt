-- ===== src/Sockets/Budget.antt =====
-- `fit_budget` of tools/socket-inventory/src/main.rs. The length of the printed result is a parameter.
pub mod Fits
use pantheon_tools_catalog.Prelude.{
  ℕ, zero, suc, ◌-◌, ◌*◌, ◌/◌, Bool, true, false, not, Option, none, some, List, [], ◌∷◌, length,
  take, retain, leb, ◌==◌, if◌then◌else◌,
}
use pantheon_tools_catalog.Text.{Text}
use pantheon_tools_catalog.Sockets.Services.{Listed, OwnedSocket}

abbrev pub output_budget : ℕ
output_budget = 56 * 1024

-- The parts of the result that are cut, and the marks of the cuts; `none` is a missing field. The
-- other fields stay as they are.
pub record Shown : Type 0 where
  pub services : List Listed
  pub connections : Option (List OwnedSocket)
  pub connections_truncated : Bool
  pub remote_peers : Option (List Text)
  pub connections_omitted : Bool
  pub remote_peers_truncated : Bool
  pub services_truncated : Bool
  pub ephemeral_services_omitted : Option ℕ

abbrev pub peers_of : Shown → List Text
peers_of v = elim v.remote_peers [ none ↦ [] | some a ↦ a ]

abbrev pub drop_connections : Shown → Shown
drop_connections v = elim v.connections [
  | none ↦ v
  | some c ↦ record v {
    connections = some [];
    connections_omitted = true;
    connections_truncated = true;
  }
]

abbrev pub keep_peers : ℕ → Shown → Shown
keep_peers n v = record v {
  remote_peers = some (take n (peers_of v));
  remote_peers_truncated = true;
}

abbrev pub keep_services : ℕ → Shown → Shown
keep_services n v = record v { services = take n v.services; services_truncated = true }

abbrev pub drop_ephemeral : Shown → Shown
drop_ephemeral v =
    let kept = retain (λ (s : Listed). not s.ephemeral_port) v.services in
    record v {
      services = kept;
      ephemeral_services_omitted = some (length v.services - length kept);
    }

module _ (size : Shown → ℕ) where
  abbrev pub fits : Shown → Bool
  fits v = leb (size v) output_budget

  -- The first loop, on as much fuel as there are peers.
  unfoldable pub shrink_peers : ℕ → Shown → Shown
  shrink_peers zero v = v
  shrink_peers (suc fuel) v =
      let peers = length (peers_of v) in
      let less = shrink_peers fuel (keep_peers (peers / 2) v) in
      if fits v then v else if peers == 0 then v else less

  -- The second, on as much as there are services.
  unfoldable pub shrink_services : ℕ → Shown → Shown
  shrink_services zero v = v
  shrink_services (suc fuel) v =
      let n = length v.services in
      let less = shrink_services fuel (keep_services (n * 3 / 4) v) in
      if fits v then v else if n == 0 then v else less

  abbrev pub without_ephemeral : Shown → Shown
  without_ephemeral v = if fits v then v else drop_ephemeral v

  unfoldable pub fit_budget : Shown → Shown
  unfolding shrink_peers shrink_services
  fit_budget v =
      let fewer = shrink_peers (length (peers_of v)) (drop_connections v) in
      let lasting = without_ephemeral fewer in
      if fits v then v else shrink_services (length lasting.services) lasting
