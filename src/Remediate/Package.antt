-- ===== src/Remediate/Package.antt =====
-- tools/package-remediate/src/main.rs: `read`, `map_write` and `run`. The packages provider of the
-- host is a parameter.
pub mod Effects
pub mod Repeat
use pantheon_tools_catalog.Prelude.{
  ℕ, Bool, true, false, not, ◌&&◌, ◌||◌, Option, none, some, List, [], ◌∷◌, map, any, filter_map,
  unwrap_or, ok_or, Result, ok, err, ◌>>=◌, ensure, if◌then◌else◌,
}
use pantheon_tools_catalog.Text.{Text, codes, text_eq, to_lower}
use pantheon_tools_catalog.Serde.{Serde, str_arg, bool_arg, array_arg}
use pantheon_tools_catalog.Remediate.Exec.{Session, Exec, pure, lift, ask, call, continue, ◌>>>=◌}
use pantheon_tools_catalog.Remediate.VersionGe.{ver_ge}

pub record PackageInfo : Type 0 where
  pub version : Text
  pub source : Text
  pub installed : Bool

pub data PackageError : Type 0 where
  not_found denied : PackageError
  bad_input transient_error : Text → PackageError

-- What the tool asks the host to change; also an element of the plan.
pub data Call : Type 0 where
  install : Text → Option Text → Call
  uninstall : Text → Call

pub data Api : Type 0 where
  query_api install_api uninstall_api : Api

pub data Error : Type 0 where
  not_json missing_name missing_desired : Error
  not_granted : Api → Error
  unknown_package : Api → Error
  rejected_input : Api → Text → Error
  provider_error : Api → Text → Error
  never_remove : Text → Error
  unknown_desired : Text → Error

-- The host interface `packages`, on a state of the host.
pub record Packages (S : Type 0) : Type 0 where
  pub query : Text → S → Result PackageError PackageInfo × S
  pub install_package : Text → Option Text → S → Result PackageError (Unit {0}) × S
  pub uninstall_package : Text → S → Result PackageError (Unit {0}) × S

abbrev pub never_remove_floor : List Text
never_remove_floor = map codes (
    "synapse-node" ∷ "synapse" ∷ "apt" ∷ "apt-get" ∷ "dpkg" ∷ "rpm" ∷ "dnf" ∷ "yum" ∷ "apk"
    ∷ "libc6" ∷ "glibc" ∷ "musl" ∷ "bash" ∷ "sh" ∷ "dash" ∷ "coreutils" ∷ "systemd"
    ∷ "openssh-server" ∷ "openssh" ∷ "sshd" ∷ "sudo" ∷ "ca-certificates" ∷ [])

-- The arguments of a call.
pub record Request : Type 0 where
  pub name : Text
  pub desired : Text
  pub apply : Bool
  pub version : Option Text
  pub min_version : Option Text
  pub extra_never : List Text

unfoldable pub read_request : (j : Serde) → Option Text → Result Error Request
read_request j raw = ok_or (j.from_str (unwrap_or raw (codes "{}"))) not_json >>= λ a.
    ok_or (str_arg j a "name") missing_name >>= λ name.
    ok_or (str_arg j a "desired") missing_desired >>= λ desired. ok record {
      name = name;
      desired = desired;
      apply = unwrap_or (bool_arg j a "apply") false;
      version = str_arg j a "version";
      min_version = str_arg j a "min_version";
      extra_never = filter_map j.as_str (unwrap_or (array_arg j a "never_remove") []);
    }

-- installed? + version
unfoldable pub read_result : Result PackageError PackageInfo → Result Error (Option PackageInfo)
read_result (ok i) = ok (if i.installed then some i else none)
read_result (err not_found) = ok none
read_result (err denied) = err (not_granted query_api)
read_result (err (bad_input s)) = err (rejected_input query_api s)
read_result (err (transient_error s)) = err (provider_error query_api s)

unfoldable pub map_write : Api → Result PackageError (Unit {0}) → Result Error (Unit {0})
map_write api (ok _) = ok tt
map_write api (err denied) = err (not_granted api)
map_write api (err not_found) = err (unknown_package api)
map_write api (err (bad_input s)) = err (rejected_input api s)
map_write api (err (transient_error s)) = err (provider_error api s)

-- A package that is installed at a version that will do.
unfoldable pub acceptable : Option Text → Option PackageInfo → Bool
acceptable min_version none = false
acceptable min_version (some p) = elim min_version [ none ↦ true | some m ↦ ver_ge p.version m ]

unfoldable pub on_denylist : Text → List Text → Bool
unfolding to_lower text_eq
on_denylist name extra_never =
    let n = to_lower name in
    any (λ f. text_eq f n) never_remove_floor || any (λ f. text_eq (to_lower f) n) extra_never

unfoldable pub is_none : Option PackageInfo → Bool
is_none none = true
is_none (some p) = false

unfoldable pub is_present : Request → Bool
unfolding text_eq
is_present r = text_eq r.desired (codes "present")

unfoldable pub is_absent : Request → Bool
unfolding text_eq
is_absent r = text_eq r.desired (codes "absent")

-- The plan, and whether the host is in the desired state already.
unfoldable pub make_plan : Request → Option PackageInfo → Result Error (List Call × Bool)
unfolding is_present is_absent acceptable on_denylist is_none
make_plan r before =
    if is_present r
    then (let ok_now = acceptable r.min_version before in
        ok (if ok_now then [] else install r.name r.version ∷ [], ok_now))
    else if is_absent r
    then (if on_denylist r.name r.extra_never
        then err (never_remove r.name)
        else let ok_now = is_none before in
          ok (if ok_now then [] else uninstall r.name ∷ [], ok_now))
    else err (unknown_desired r.desired)

-- The comparison of the two versions, where `none` is a package that is not installed.
unfoldable pub version_moved : Option PackageInfo → Option PackageInfo → Bool
unfolding text_eq
version_moved none none = false
version_moved (some p) (some q) = not (text_eq p.version q.version)
version_moved _ _ = true

unfoldable pub verify : Request → Option PackageInfo → Bool
unfolding is_present acceptable is_none
verify r after = if is_present r then acceptable r.min_version after else is_none after

pub record Output : Type 0 where
  pub before : Option PackageInfo
  pub after : Option PackageInfo
  pub plan : List Call
  pub changed : Bool
  pub applied : Bool
  pub verified : Bool
  pub dry_run : Bool

module _ {S : Type 0} (host : Packages S) where
  open host use {query, install_package, uninstall_package}

  unfoldable pub read : Text → Exec S Call Error (Option PackageInfo)
  unfolding read_result
  read name = ask (query name) >>>= λ r. lift (read_result r)

  unfoldable pub write : Request → Exec S Call Error (Unit {0})
  unfolding is_present map_write
  write r =
      if is_present r
      then (call (install r.name r.version) (install_package r.name r.version) >>>= λ w.
          lift (map_write install_api w))
      else call (uninstall r.name) (uninstall_package r.name) >>>= λ w.
          lift (map_write uninstall_api w)

  -- what follows the plan
  unfoldable pub carry_out :
      Request → Option PackageInfo → List Call → Bool → Exec S Call Error Output
  carry_out r before plan already =
      if already
      then pure record {
        before = before;
        after = before;
        plan = plan;
        changed = false;
        applied = false;
        verified = true;
        dry_run = false;
      }
      else if not r.apply
      then pure record {
        before = before;
        after = before;
        plan = plan;
        changed = false;
        applied = false;
        verified = false;
        dry_run = true;
      }
      else write r >>>= λ _. read r.name >>>= λ after. pure record {
        before = before;
        after = after;
        plan = plan;
        changed = version_moved before after;
        applied = true;
        verified = verify r after;
        dry_run = false;
      }

  unfoldable pub remediate : Request → Exec S Call Error Output
  remediate r = read r.name >>>= λ before.
      lift (make_plan r before) >>>= λ (plan, already). carry_out r before plan already

  unfoldable pub run : (j : Serde) → Option Text → Exec S Call Error Output
  unfolding read_request remediate read make_plan carry_out write version_moved verify
  run j raw = lift (read_request j raw) >>>= λ r. remediate r
