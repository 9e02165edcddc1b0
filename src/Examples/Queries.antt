-- ===== src/Examples/Queries.antt =====
-- The theorems on json-query, net-sweep, dns-resolve, text-entropy and package-check at concrete
-- inputs.
use pantheon_tools_catalog.Prelude.{
  true, Result, ok, ◌↔◌, ◌≡◌, refl, none, some, Option, List, [], ◌∷◌, ◌==◌, if◌then◌else◌, ℕ,
  arith,
}
use pantheon_tools_catalog.Text.{Text, codes, text_eq}
use pantheon_tools_catalog.Query.{navigate, descend}
use pantheon_tools_catalog.Query.Reaches.{segments, Reaches, navigate-Reaches}
use pantheon_tools_catalog.Net.PortScan.{Network}
use pantheon_tools_catalog.Net.Sweep.{sweep}
use pantheon_tools_catalog.Net.Sweep.Fastest.{Reported, sweep-Reported}
use pantheon_tools_catalog.Net.Resolve.{resolve}
use pantheon_tools_catalog.Net.Resolve.Distinct.{SameDistinct, resolve-Distinct}
use pantheon_tools_catalog.Entropy.{Encoding, tally, before_bytes, statistics}
use pantheon_tools_catalog.Entropy.Counts.{Counted, IsHistogram, statistics-Counted}
use pantheon_tools_catalog.Compliance.Host.{PackageInfo, PackageError}
use pantheon_tools_catalog.Compliance.Outcomes.{Rule, pass}
use pantheon_tools_catalog.Compliance.Rules.{eval_package}
use pantheon_tools_catalog.Posture.PackageCheck.{conclude}
use pantheon_tools_catalog.Posture.PackageCheck.Agreement.{Passes, conclude-eval_package}
use pantheon_tools_catalog.Examples.{Json, str, json, base_entries}

abbrev a_path : Json
a_path = str (codes "/work/a.txt")

navigate-Reaches_example :
    (navigate json base_entries (codes "0.path") ≡ some a_path)
    ↔ Reaches json base_entries (segments (codes "0.path")) a_path
navigate-Reaches_example = navigate-Reaches json base_entries (codes "0.path") a_path

-- An empty segment is skipped.
navigate_first : navigate json base_entries (codes "0..path") ≡ some a_path
unfolding navigate descend text_eq
navigate_first = refl

-- Two of the ports accept a connection.
abbrev network : Network
network = record {
  Addr = ℕ;
  resolve = λ host port. some port;
  connect = λ port timeout. if port == 22 then some 9 else if port == 443 then some 4 else none;
}

abbrev ports : List ℕ
ports = 22 ∷ 80 ∷ 443 ∷ []

sweep-Reported_example :
    Reported network (codes "db") 2000 ports (sweep network (codes "db") 2000 ports)
sweep-Reported_example = sweep-Reported network (codes "db") 2000 ports

abbrev answers : List Text
answers = codes "10.0.0.2" ∷ codes "10.0.0.1" ∷ codes "10.0.0.2" ∷ []

abbrev resolver : Text → Option (List Text)
resolver name = some answers

resolve-Distinct_example : SameDistinct answers (resolve resolver (codes "db")).addrs
resolve-Distinct_example = resolve-Distinct resolver (codes "db") answers refl

abbrev ascii : Encoding
ascii = record { as_bytes = λ s. s; lossy = λ bytes. bytes }

abbrev two_lines : List ℕ
two_lines = 97 ∷ 10 ∷ 98 ∷ []

statistics-Counted_example :
    IsHistogram two_lines (tally two_lines before_bytes).freq
    × Counted two_lines (statistics ascii two_lines)
statistics-Counted_example =
    statistics-Counted ascii two_lines (omega arith, (omega arith, (omega arith, tt)))

abbrev openssl_rule : Rule
openssl_rule = record {
  id = some (codes "tls");
  ty = some (codes "package");
  severity = none;
  kind_in = none;
  allowed = none;
  expected = none;
  min_version = some (codes "3.0.2");
  name = some (codes "openssl");
  installed = none;
  state = none;
  path = none;
  exists = none;
  directive = none;
  default = none;
  missing_file = none;
  format = none;
}

abbrev openssl_info : PackageInfo
openssl_info = record {
  name = codes "openssl";
  installed = true;
  version = codes "3.0.13";
  source = codes "dpkg";
}

abbrev answer : Result PackageError PackageInfo
answer = ok openssl_info

conclude-eval_package_example :
    Passes (conclude (some (codes "3.0.2")) (codes "openssl") answer)
    ↔ ((eval_package openssl_rule (codes "openssl") answer).outcome ≡ pass)
conclude-eval_package_example = conclude-eval_package openssl_rule (codes "openssl") answer refl
