-- ===== src/Posture/OsFingerprint.antt =====
-- tools/os-fingerprint/src/main.rs. What the host says of itself is a parameter.
use pantheon_tools_catalog.Prelude.{
  Bool, true, false, not, Option, ◌++◌, if◌then◌else◌, unwrap_or, ok_or, Result, ok, ◌>>=◌,
}
use pantheon_tools_catalog.Text.{Text, codes, text_eq}
use pantheon_tools_catalog.Serde.{Serde}
use pantheon_tools_catalog.Compliance.Host.{
  OsKind, linux_debian, linux_rhel, linux_alpine, macos, windows, other, OsInfo,
}

pub data Error : Type 0 where
  args_not_json : Error

pub record Output : Type 0 where
  pub granted : Bool
  pub kind : Text
  pub version : Text
  pub arch : Text

-- The label, and whether the host denies the answer.
unfoldable pub kind_str : OsKind → Text × Bool
unfolding text_eq
kind_str linux_debian = (codes "linux-debian", false)
kind_str linux_rhel = (codes "linux-rhel", false)
kind_str linux_alpine = (codes "linux-alpine", false)
kind_str macos = (codes "macos", false)
kind_str windows = (codes "windows", false)
kind_str (other s) =
    if text_eq s (codes "denied") then (codes "denied", true) else (codes "other:" ++ s, false)

unfoldable pub fingerprint : OsInfo → Output
unfolding kind_str
fingerprint host = record {
  granted = not (kind_str host.kind).1;
  kind = (kind_str host.kind).0;
  version = host.version;
  arch = host.arch;
}

-- The arguments only have to be JSON.
unfoldable pub run : Serde → OsInfo → Option Text → Result Error Output
unfolding fingerprint
run j host raw = do
  _ ← ok_or (j.from_str (unwrap_or raw (codes "{}"))) args_not_json
  ok (fingerprint host)
