-- ===== src/Net/Tls.antt =====
-- tools/tls-inspect/src/main.rs. The handshake of the host is a parameter.
use pantheon_tools_catalog.Prelude.{
  ℕ, Bool, true, false, ◌&&◌, Option, none, some, List, leb, ltb, if◌then◌else◌, unwrap_or, ok_or,
  and_then, Result, ok, err, ◌>>=◌,
}
use pantheon_tools_catalog.Text.{Text, codes}
use pantheon_tools_catalog.Serde.{Serde, str_arg}

-- A signed number of days: `days` from now, or `days + 1` ago.
pub data Days : Type 0 where
  ahead past : ℕ → Days

-- `cert-info` and `tls-error` of the host interface
pub record CertInfo : Type 0 where
  pub subject : Text
  pub issuer : Text
  pub not_before : Text
  pub not_after : Text
  pub days_until_expiry : Days
  pub sans : List Text
  pub chain_len : ℕ
  pub protocol : Text
  pub cipher : Text
  pub self_signed : Bool

pub data TlsError : Type 0 where
  denied destination_denied : TlsError
  connect_error handshake_error : Text → TlsError

pub data Error : Type 0 where
  args_not_json host_missing bad_port not_granted : Error
  destination_not_permitted : Text → ℕ → Error
  connect handshake : Text → Error

pub record Output : Type 0 where
  pub host : Text
  pub port : ℕ
  pub cert : CertInfo
  pub expired : Bool

-- `i.days_until_expiry < 0`
unfoldable pub is_past : Days → Bool
is_past (ahead n) = false
is_past (past n) = true

unfoldable pub valid_port : ℕ → Option ℕ
valid_port p = if ltb 0 p && leb p 65535 then some p else none

unfoldable pub read_port : (j : Serde) → j.Value → Result Error ℕ
unfolding valid_port
read_port j a = elim (j.get a (codes "port")) [
  | none ↦ ok 443
  | some v ↦ ok_or (and_then (j.as_u64 v) valid_port) bad_port
]

unfoldable pub inspect : (Text → ℕ → Result TlsError CertInfo) → Text → ℕ → Result Error Output
unfolding is_past
inspect tls host port = elim (tls host port) [
  | ok i ↦ ok (record { host = host; port = port; cert = i; expired = is_past i.days_until_expiry })
  | err denied ↦ err not_granted
  | err destination_denied ↦ err (destination_not_permitted host port)
  | err (connect_error e) ↦ err (connect e)
  | err (handshake_error e) ↦ err (handshake e)
]

unfoldable pub run :
    Serde → (Text → ℕ → Result TlsError CertInfo) → Option Text → Result Error Output
unfolding read_port inspect
run j tls raw = do
  a ← ok_or (j.from_str (unwrap_or raw (codes "{}"))) args_not_json
  host ← ok_or (str_arg j a "host") host_missing
  port ← read_port j a
  inspect tls host port
