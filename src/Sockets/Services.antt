-- ===== src/Sockets/Services.antt =====
-- `services` of tools/socket-inventory/src/main.rs.
pub mod Grouped
use pantheon_tools_catalog.Prelude.{
  ℕ, ◌+◌, Bool, true, false, ◌||◌, Option, none, some, List, [], ◌∷◌, ◌++◌, map, foldl, any, all,
  is_empty, leb, if◌then◌else◌, compare, Ordering,
}
use pantheon_tools_catalog.Text.{Text, codes, starts_with}
use pantheon_tools_catalog.Text.Find.{ends_with}
use pantheon_tools_catalog.Text.Order.{text_cmp}
use pantheon_tools_catalog.Text.Decimal.{to_string}
use pantheon_tools_catalog.Map.{Map, insert}
use pantheon_tools_catalog.Sockets.Address.{ParseIp, is_loopback, is_wildcard}

pub record OwnedSocket : Type 0 where
  pub protocol : Text
  pub state : Text
  pub local_addr : Text
  pub local_port : ℕ
  pub remote_addr : Text
  pub remote_port : ℕ
  pub process : Text
  pub pid : Option ℕ

unfoldable pub family : Text → Text
unfolding starts_with
family protocol = if starts_with (codes "udp") protocol then codes "udp" else codes "tcp"

-- the key of the map
pub record Key : Type 0 where
  pub proto : Text
  pub port : ℕ
  pub owner : Text

-- The sets are maps to nothing.
pub record Service : Type 0 where
  pub pid : Option ℕ
  pub binds : Map (Unit {0})
  pub ip_versions : Map (Unit {0})

abbrev pub default_service : Service
default_service = record { pid = none; binds = []; ip_versions = [] }

-- the order of the tuples
unfoldable pub key_cmp : Key → Key → Ordering
unfolding text_cmp
key_cmp k l = elim (text_cmp k.proto l.proto) [
  | Ordering.eq ↦ elim (compare k.port l.port) [ Ordering.eq ↦ text_cmp k.owner l.owner | o ↦ o ]
  | o ↦ o
]

-- `map.entry(k).or_default()`, changed in place
unfoldable pub update_entry :
    Key → (Service → Service) → List (Key × Service) → List (Key × Service)
unfolding key_cmp
update_entry k f [] = (k, f default_service) ∷ []
update_entry k f ((l, s) ∷ m) = elim (key_cmp k l) [
  | Ordering.lt ↦ (k, f default_service) ∷ (l, s) ∷ m
  | Ordering.eq ↦ (l, f s) ∷ m
  | Ordering.gt ↦ (l, s) ∷ update_entry k f m
]

unfoldable pub owner_of : OwnedSocket → Text
unfolding to_string
owner_of s =
    if is_empty s.process
    then elim s.pid [ none ↦ [] | some p ↦ codes "pid:" ++ to_string p ]
    else s.process

unfoldable pub key_of : OwnedSocket → Key
unfolding family owner_of
key_of s = record { proto = family s.protocol; port = s.local_port; owner = owner_of s }

abbrev pub or : Option ℕ → Option ℕ → Option ℕ
or none b = b
or (some a) b = some a

unfoldable pub bind : OwnedSocket → Service → Service
unfolding insert ends_with
bind s e = record {
  pid = or e.pid s.pid;
  binds = insert s.local_addr tt e.binds;
  ip_versions =
      insert (if ends_with (codes "6") s.protocol then codes "6" else codes "4") tt e.ip_versions;
}

-- the loop over the listeners
unfoldable pub group : List OwnedSocket → List (Key × Service)
unfolding update_entry key_of bind
group = foldl (λ m s. update_entry (key_of s) (bind s) m) []

pub data Exposure : Type 0 where
  everywhere loopback specific : Exposure

pub record Listed : Type 0 where
  pub key : Key
  pub pid : Option ℕ
  pub binds : List Text
  pub ip_versions : List Text
  pub exposure : Exposure
  pub ephemeral_port : Bool

abbrev pub elements : Map (Unit {0}) → List Text
elements = map (λ (x : Text × Unit {0}). x.0)

unfoldable pub exposure_of : ParseIp → List Text → Exposure
unfolding is_loopback is_wildcard
exposure_of ip binds =
    if any is_wildcard binds
    then everywhere
    else if all (is_loopback ip) binds
    then loopback
    else specific

unfoldable pub listed : ParseIp → Key × Service → Listed
unfolding exposure_of
listed ip (k, svc) = record {
  key = k;
  pid = svc.pid;
  binds = elements svc.binds;
  ip_versions = elements svc.ip_versions;
  exposure = exposure_of ip (elements svc.binds);
  ephemeral_port = leb 32768 k.port;
}

unfoldable pub services : ParseIp → List OwnedSocket → List Listed
unfolding group listed
services ip listeners = map (listed ip) (group listeners)
