-- ===== src/Posture/Inventory.antt =====
-- tools/package-inventory/src/main.rs. The list of packages and the state of the back-end are
-- parameters.
use pantheon_tools_catalog.Prelude.{
  ℕ, Bool, true, Option, none, some, List, length, retain, take, ltb, is_empty, if◌then◌else◌,
  unwrap_or, ok_or, Result, ok, ◌>>=◌,
}
use pantheon_tools_catalog.Text.{Text, codes, starts_with}
use pantheon_tools_catalog.Serde.{Serde, as_usize, str_arg, u64_arg}

pub data BackendStatus : Type 0 where
  denied no_backend : BackendStatus
  ready : Text → BackendStatus

-- `package-info` of the inventory interface
pub record Installed : Type 0 where
  pub name : Text
  pub version : Text
  pub source : Text

pub data Error : Type 0 where
  args_not_json : Error

-- `status`; the note says the same
pub data Status : Type 0 where
  listed : Status
  nothing_listed : BackendStatus → Status

pub record Output : Type 0 where
  pub status : Status
  pub total_installed : ℕ
  pub matched : ℕ
  pub truncated : Bool
  pub packages : List Installed

unfoldable pub has_prefix : Option Text → Installed → Bool
unfolding starts_with
has_prefix none p = true
has_prefix (some pf) p = starts_with pf p.name

unfoldable pub inventory : List Installed → BackendStatus → ℕ → Option Text → Output
unfolding has_prefix
inventory all backend max name_prefix =
    let pkgs = retain (has_prefix name_prefix) all in
    record {
      status = if is_empty all then nothing_listed backend else listed;
      total_installed = length all;
      matched = length pkgs;
      truncated = ltb max (length pkgs);
      packages = if ltb max (length pkgs) then take max pkgs else pkgs;
    }

unfoldable pub run : Serde → List Installed → BackendStatus → Option Text → Result Error Output
unfolding inventory
run j all backend raw = do
  a ← ok_or (j.from_str (unwrap_or raw (codes "{}"))) args_not_json
  ok (
      inventory all backend (as_usize (unwrap_or (u64_arg j a "max") 2000))
        (str_arg j a "name_prefix"))
