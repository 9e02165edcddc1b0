-- ===== src/Examples/Endpoints.antt =====
-- The theorems on socket-inventory at concrete inputs.
use pantheon_tools_catalog.Prelude.{ℕ, ◌+◌, ◌-◌, ◌≤◌, ◌≡◌, ◌⊎◌, false, none, some, [], ◌∷◌, length}
use pantheon_tools_catalog.Text.{codes}
use pantheon_tools_catalog.Sockets.Services.{OwnedSocket, Key, Listed, specific}
use pantheon_tools_catalog.Sockets.Budget.{Shown, output_budget, peers_of, fit_budget}
use pantheon_tools_catalog.Sockets.Budget.Fits.{fit_budget-Fits, Marked, fit_budget-Marked}

abbrev ssh_key : Key
ssh_key = record { proto = codes "tcp"; port = 22; owner = codes "sshd" }

abbrev ssh_socket : OwnedSocket
ssh_socket = record {
  protocol = codes "tcp6";
  state = codes "LISTEN";
  local_addr = codes "::";
  local_port = 22;
  remote_addr = [];
  remote_port = 0;
  process = codes "sshd";
  pid = some 7;
}

abbrev ssh_service : Listed
ssh_service = record {
  key = ssh_key;
  pid = some 7;
  binds = codes "10.0.0.1" ∷ [];
  ip_versions = codes "4" ∷ [];
  exposure = specific;
  ephemeral_port = false;
}

abbrev before : Shown
before = record {
  services = ssh_service ∷ ssh_service ∷ [];
  connections = some (ssh_socket ∷ []);
  connections_truncated = false;
  remote_peers = some (codes "8.8.8.8" ∷ codes "9.9.9.9" ∷ codes "1.1.1.1" ∷ []);
  connections_omitted = false;
  remote_peers_truncated = false;
  services_truncated = false;
  ephemeral_services_omitted = none;
}

-- One service is small enough, with any number of peers.
abbrev size : Shown → ℕ
size v = 57344 + length v.services - 1

fit_budget-Fits_example :
    (size (fit_budget size before) ≤ output_budget)
    ⊎ ((length (peers_of (fit_budget size before)) ≡ 0)
        × (length (fit_budget size before).services ≡ 0))
fit_budget-Fits_example = fit_budget-Fits size before

fit_budget-Marked_example : Marked before (fit_budget size before)
fit_budget-Marked_example = fit_budget-Marked size before
