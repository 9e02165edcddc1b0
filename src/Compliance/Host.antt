-- ===== src/Compliance/Host.antt =====
-- The host of tools/compliance-scan/src/main.rs: the trait `Host`, the host interfaces that are not
-- part of the repository, and `Node`, which is made of them. The host answers the same question the
-- same way during a run.
use pantheon_tools_catalog.Prelude.{
  ℕ, ◌*◌, Bool, not, List, map, retain, if◌then◌else◌, Result, ok, err,
}
use pantheon_tools_catalog.Text.{Text, codes, text_eq}

pub data OsKind : Type 0 where
  linux_debian linux_rhel linux_alpine macos windows : OsKind
  other : Text → OsKind

pub data FsError : Type 0 where
  fs_denied not_found too_large io_error : Text → FsError

-- `FsErr`
pub data FsErr : Type 0 where
  denied : Text → FsErr
  missing : FsErr
  failed : Text → FsErr

pub data PackageError : Type 0 where
  package_not_found package_denied : PackageError
  package_bad_input package_transient : Text → PackageError

pub data ServiceStatus : Type 0 where
  running stopped service_failed unknown_status : ServiceStatus

pub data ServiceError : Type 0 where
  service_not_found service_denied : ServiceError
  service_transient : Text → ServiceError

pub record PackageInfo : Type 0 where
  pub name : Text
  pub installed : Bool
  pub version : Text
  pub source : Text

pub record OsFacts : Type 0 where
  pub kind : Text
  pub version : Text
  pub arch : Text

-- The trait `Host`, and what `eval_rule` asks beside it.
pub record Host : Type 0 where
  pub os : Result (Unit {0}) OsFacts
  pub read : Text → Result FsErr Text
  pub list : Text → Result FsErr (List Text)
  pub query : Text → Result PackageError PackageInfo
  pub status : Text → Result ServiceError ServiceStatus
  -- `std::fs::metadata(path).is_ok()`, in the sandbox
  pub metadata_ok : Text → Bool

pub record OsInfo : Type 0 where
  pub kind : OsKind
  pub version : Text
  pub arch : Text

pub record ListEntry : Type 0 where
  pub name : Text
  pub is_dir : Bool

-- The interfaces of the host that are imported, with `String::from_utf8_lossy` done on a file.
pub record Imports : Type 0 where
  pub os_info : OsInfo
  pub read_file : Text → ℕ → Result FsError Text
  pub list_dir : Text → Result FsError (List ListEntry)
  pub package_query : Text → Result PackageError PackageInfo
  pub service_status : Text → Result ServiceError ServiceStatus
  pub sandbox_metadata_ok : Text → Bool

unfoldable pub os_kind_str : OsKind → Text
os_kind_str linux_debian = codes "linux-debian"
os_kind_str linux_rhel = codes "linux-rhel"
os_kind_str linux_alpine = codes "linux-alpine"
os_kind_str macos = codes "macos"
os_kind_str windows = codes "windows"
os_kind_str (other s) = s

unfoldable pub map_fs_err : FsError → FsErr
map_fs_err (fs_denied m) = denied m
map_fs_err (not_found m) = missing
map_fs_err (too_large m) = failed m
map_fs_err (io_error m) = failed m

abbrev pub map_err {ℓ κ μ} :
    {A : Type ℓ} {E : Type κ} {F : Type μ} → (E → F) → Result E A → Result F A
map_err f (ok a) = ok a
map_err f (err e) = err (f e)

abbrev pub config_max_bytes : ℕ
config_max_bytes = 256 * 1024

abbrev pub file_names : List ListEntry → List Text
file_names es = map (λ (e : ListEntry). e.name) (retain (λ e. not e.is_dir) es)

-- `Node`, which asks for the facts of the system once and keeps the answer
unfoldable pub node : Imports → Host
unfolding os_kind_str map_fs_err text_eq
node h = record {
  os =
      (let kind = os_kind_str (h.os_info).kind in
        let facts : OsFacts = record {
          kind = kind;
          version = (h.os_info).version;
          arch = (h.os_info).arch;
        } in
        if text_eq kind (codes "denied") then err tt else ok facts);
  read = λ path. map_err map_fs_err (h.read_file path config_max_bytes);
  list = λ dir. elim (h.list_dir dir) [ ok es ↦ ok (file_names es) | err e ↦ err (map_fs_err e) ];
  query = h.package_query;
  status = h.service_status;
  metadata_ok = h.sandbox_metadata_ok;
}
