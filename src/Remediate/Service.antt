-- ===== src/Remediate/Service.antt =====
-- tools/service-remediate/src/main.rs. The service provider of the host is a parameter.
pub mod Verified
use pantheon_tools_catalog.Prelude.{
  ℕ, zero, suc, Bool, true, false, not, ◌||◌, Option, none, some, List, [], ◌∷◌, map, unwrap_or,
  ok_or, Result, ok, err, ◌>>=◌, if◌then◌else◌,
}
use pantheon_tools_catalog.Text.{Text, codes, text_eq}
use pantheon_tools_catalog.Serde.{Serde, str_arg, bool_arg}
use pantheon_tools_catalog.Remediate.Exec.{Session, Exec, pure, lift, ask, call, ◌>>>=◌}

pub data ServiceStatus : Type 0 where
  running stopped failed unknown : ServiceStatus

pub data ServiceError : Type 0 where
  not_found denied : ServiceError
  transient_error : Text → ServiceError

-- the words that `read` answers with
pub data Observed : Type 0 where
  is_running is_stopped is_failed is_unknown is_not_found : Observed

-- the words of `desired`
pub data Desired : Type 0 where
  to_run to_restart to_enable to_disable to_stop : Desired

pub data Action : Type 0 where
  restart enable disable stop : Action

-- What the host is asked to change; also an element of the plan.
pub record Call : Type 0 where
  pub action : Action
  pub target : Text

pub data Error : Type 0 where
  not_json missing_name missing_desired unknown_desired status_not_granted : Error
  provider_error : Text → Error
  refused : Observed → Error
  not_granted gone : Action → Error
  write_error : Action → Text → Error

-- The host interface `service`, on a state of the host, and the wait between two looks.
pub record Services (S : Type 0) : Type 0 where
  pub status : Text → S → Result ServiceError ServiceStatus × S
  pub change : Action → Text → S → Result ServiceError (Unit {0}) × S
  pub sleep : S → Unit {0} × S

unfoldable pub st : ServiceStatus → Observed
st running = is_running
st stopped = is_stopped
st failed = is_failed
st unknown = is_unknown

unfoldable pub read_result : Result ServiceError ServiceStatus → Result Error Observed
unfolding st
read_result (ok s) = ok (st s)
read_result (err not_found) = ok is_not_found
read_result (err denied) = err status_not_granted
read_result (err (transient_error s)) = err (provider_error s)

unfoldable pub write_result : Action → Result ServiceError (Unit {0}) → Result Error (Unit {0})
write_result a (ok _) = ok tt
write_result a (err denied) = err (not_granted a)
write_result a (err not_found) = err (gone a)
write_result a (err (transient_error s)) = err (write_error a s)

unfoldable pub desired_of : Text → Option Desired
unfolding text_eq
desired_of t =
    if text_eq t (codes "running")
    then some to_run
    else if text_eq t (codes "restarted")
    then some to_restart
    else if text_eq t (codes "enabled")
    then some to_enable
    else if text_eq t (codes "disabled")
    then some to_disable
    else if text_eq t (codes "stopped")
    then some to_stop
    else none

unfoldable pub action_for : Desired → Action
action_for to_run = restart
action_for to_restart = restart
action_for to_enable = enable
action_for to_disable = disable
action_for to_stop = stop

unfoldable pub satisfied_by : Desired → Observed → Bool
satisfied_by to_run is_running = true
satisfied_by to_stop is_stopped = true
satisfied_by _ _ = false

-- `matches!(desired, "running" | "stopped")`
unfoldable pub observable : Desired → Bool
observable to_run = true
observable to_stop = true
observable _ = false

-- `before == "not-found" || before == "unknown"`
unfoldable pub unseen : Observed → Bool
unseen is_not_found = true
unseen is_unknown = true
unseen _ = false

unfoldable pub same : Observed → Observed → Bool
same is_running is_running = true
same is_stopped is_stopped = true
same is_failed is_failed = true
same is_unknown is_unknown = true
same is_not_found is_not_found = true
same _ _ = false

unfoldable pub is_restart : Desired → Bool
is_restart to_restart = true
is_restart _ = false

pub record Request : Type 0 where
  pub name : Text
  pub desired : Desired
  pub apply : Bool

unfoldable pub read_request : (j : Serde) → Option Text → Result Error Request
unfolding desired_of
read_request j raw = do
  a ← ok_or (j.from_str (unwrap_or raw (codes "{}"))) not_json
  name ← ok_or (str_arg j a "name") missing_name
  desired_text ← ok_or (str_arg j a "desired") missing_desired
  desired ← ok_or (desired_of desired_text) unknown_desired
  ok (record { name = name; desired = desired; apply = unwrap_or (bool_arg j a "apply") false })

pub record Output : Type 0 where
  pub before : Observed
  pub after : Observed
  pub plan : List Call
  pub changed : Bool
  pub applied : Bool
  pub verified : Bool
  pub dry_run : Bool

abbrev pub planned : Request → Call
planned r = record { action = action_for r.desired; target = r.name }

module _ {S : Type 0} (host : Services S) where
  open host use {status, change, sleep}

  unfoldable pub read : Text → Exec S Call Error Observed
  unfolding read_result
  read name = ask (status name) >>>= λ r. lift (read_result r)

  unfoldable pub write : Request → Exec S Call Error (Unit {0})
  unfolding write_result
  write r = call (planned r) (change (action_for r.desired) r.name) >>>= λ w.
      lift (write_result (action_for r.desired) w)

  -- the rounds of the settle-retry that are left
  unfoldable pub settle : ℕ → Request → Observed → Exec S Call Error Observed
  settle zero r after = pure after
  settle (suc left) r after =
      if satisfied_by r.desired after
      then pure after
      else (ask sleep >>>= λ _. read r.name >>>= λ again. settle left r again)

  unfoldable pub look : Request → Observed → Exec S Call Error Observed
  look r after = if observable r.desired then settle 5 r after else pure after

  -- what follows the look at the state before
  unfoldable pub act : Request → Observed → Exec S Call Error Output
  act r before =
      if satisfied_by r.desired before
      then pure record {
        before = before;
        after = before;
        plan = [];
        changed = false;
        applied = false;
        verified = true;
        dry_run = false;
      }
      else if not r.apply
      then pure record {
        before = before;
        after = before;
        plan = planned r ∷ [];
        changed = false;
        applied = false;
        verified = false;
        dry_run = true;
      }
      else (write r >>>= λ _. read r.name >>>= λ first. look r first >>>= λ after. pure record {
        before = before;
        after = after;
        plan = planned r ∷ [];
        changed = not (same before after) || is_restart r.desired;
        applied = true;
        verified = if observable r.desired then satisfied_by r.desired after else true;
        dry_run = false;
      })

  unfoldable pub remediate : Request → Exec S Call Error Output
  remediate r =
      read r.name >>>= λ before. if unseen before then lift (err (refused before)) else act r before

  unfoldable pub run : (j : Serde) → Option Text → Exec S Call Error Output
  unfolding read_request remediate read act write settle look satisfied_by observable unseen same
      is_restart action_for
  run j raw = lift (read_request j raw) >>>= λ r. remediate r
