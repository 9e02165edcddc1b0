-- ===== src/Posture/ServiceStatus.antt =====
-- tools/service-status/src/main.rs. The services of the host are a parameter, which answers the same
-- question the same way during a run.
use pantheon_tools_catalog.Prelude.{
  ℕ, Bool, true, false, not, Option, none, some, List, [], ◌∷◌, map, length, filter_map, is_empty,
  any, if◌then◌else◌, unwrap_or, ok_or, ensure, Result, ok, err, ◌>>=◌, ◌>>◌,
}
use pantheon_tools_catalog.Text.{Text, codes}
use pantheon_tools_catalog.Serde.{Serde, str_arg, array_arg}
use pantheon_tools_catalog.Compliance.Host.{
  ServiceStatus, running, stopped, service_failed, unknown_status, ServiceError, service_not_found,
  service_denied, service_transient,
}

pub record Status : Type 0 where
  pub name : Text
  pub status : Text
  pub running : Bool
  pub error : Option Text

pub data Error : Type 0 where
  args_not_json name_missing no_names : Error
  -- with the results of the batch
  not_granted : List Status → Error

pub record Output : Type 0 where
  pub count : ℕ
  pub results : List Status

unfoldable pub status_str : ServiceStatus → Text
status_str running = codes "running"
status_str stopped = codes "stopped"
status_str service_failed = codes "failed"
status_str unknown_status = codes "unknown"

unfoldable pub is_running : ServiceStatus → Bool
is_running running = true
is_running stopped = false
is_running service_failed = false
is_running unknown_status = false

unfoldable pub down : Text → Text → Option Text → Status
down name status error = record { name = name; status = status; running = false; error = error }

unfoldable pub describe : Text → Result ServiceError ServiceStatus → Status
unfolding status_str is_running down
describe n (ok s) = record { name = n; status = status_str s; running = is_running s; error = none }
describe n (err service_not_found) = down n (codes "not-found") none
describe n (err service_denied) = down n (codes "denied") none
describe n (err (service_transient s)) = down n (codes "error") (some s)

-- what sets `denied`
unfoldable pub is_denied : Result ServiceError ServiceStatus → Bool
is_denied (ok s) = false
is_denied (err service_not_found) = false
is_denied (err service_denied) = true
is_denied (err (service_transient s)) = false

unfoldable pub read_names : (j : Serde) → j.Value → Result Error (List Text)
read_names j a = elim (array_arg j a "names") [
  | some arr ↦ ok (filter_map j.as_str arr)
  | none ↦ elim (str_arg j a "name") [ some n ↦ ok (n ∷ []) | none ↦ err name_missing ]
]

unfoldable pub report : (Text → Result ServiceError ServiceStatus) → List Text → Result Error Output
unfolding describe is_denied
report status names =
    let results = map (λ n. describe n (status n)) names in
    if any (λ n. is_denied (status n)) names
    then err (not_granted results)
    else ok (record { count = length results; results = results })

unfoldable pub run :
    Serde → (Text → Result ServiceError ServiceStatus) → Option Text → Result Error Output
unfolding read_names report
run j status raw = do
  a ← ok_or (j.from_str (unwrap_or raw (codes "{}"))) args_not_json
  names ← read_names j a
  ensure (not (is_empty names)) no_names
  report status names
