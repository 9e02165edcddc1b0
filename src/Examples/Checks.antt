-- ===== src/Examples/Checks.antt =====
-- The theorems on the checks of files, lists and the network at concrete inputs.
use pantheon_tools_catalog.Prelude.{
  ◌≡◌, ◌↔◌, ◌<◌, refl, ℕ, true, false, none, some, [], ◌∷◌, arith, In, All, ok,
}
use pantheon_tools_catalog.Text.{Text, codes, text_eq}
use pantheon_tools_catalog.Map.{Map, get}
use pantheon_tools_catalog.Inspect.Base64.{b64_encode}
use pantheon_tools_catalog.Inspect.Base64.RoundTrip.{b64_decode, b64_decode-encode}
use pantheon_tools_catalog.Inspect.ReadFile.{Output, read_file}
use pantheon_tools_catalog.Inspect.ReadFile.Cut.{Shows, read_file-base64}
use pantheon_tools_catalog.Inspect.Inventory.{package_drift, service_diff, compliant}
use pantheon_tools_catalog.Inspect.Inventory.Reported.{Iterates, package_drift-In}
use pantheon_tools_catalog.Inspect.Inventory.Compliance.{service_diff-compliant}
use pantheon_tools_catalog.Inspect.Ioc as Ioc
use pantheon_tools_catalog.Inspect.Ioc.{Match, domain, domain_hits, match_lists}
use pantheon_tools_catalog.Inspect.SshdConfig.{Finding, rule_of, high, lint_sshd, sshd_rules}
use pantheon_tools_catalog.Inspect.SshdConfig.Lint.{broken, lint_sshd-In}
use pantheon_tools_catalog.Inspect.Sbom.{component_of}
use pantheon_tools_catalog.Inspect.Eol.{days_of, delta_of}
use pantheon_tools_catalog.Inspect.Eol.Days.{IsDate, days_in_month, next_day, days_of-next_day}
use pantheon_tools_catalog.Inspect.DigestFile.{
  Algorithms, digest_of, digest_file, digest_file-all_bytes,
}
use pantheon_tools_catalog.Hash.{sha256_file}
use pantheon_tools_catalog.Hash.Streaming.{all_bytes, digest_of_all}
use pantheon_tools_catalog.Fs.{bytes, Entries, end, failed, entry, unlisted}
use pantheon_tools_catalog.Net.PortScan as PortScan
use pantheon_tools_catalog.Net.PortScan.{
  Network, parse_range, scan, scan_ports, split_dash, from_port,
}
use pantheon_tools_catalog.Examples.{null, json, hasher, hasher-IsStreaming, a_txt, b_txt}

two_bytes-below : All (λ b. b < 256) (255 ∷ 1 ∷ [])
two_bytes-below = (omega arith, (omega arith, tt))

b64_decode-encode_example : b64_decode (b64_encode (255 ∷ 1 ∷ [])) ≡ some (255 ∷ 1 ∷ [])
b64_decode-encode_example = b64_decode-encode (255 ∷ 1 ∷ []) two_bytes-below

three_bytes-below : All (λ b. b < 256) (1 ∷ 2 ∷ 7 ∷ [])
three_bytes-below = (omega arith, (omega arith, (omega arith, tt)))

read_file-base64_example :
    (out : Output) × (read_file hasher a_txt 2 (codes "base64") ≡ ok out)
    × Shows hasher a_txt 2 (1 ∷ 2 ∷ 7 ∷ []) out
read_file-base64_example = read_file-base64 hasher a_txt 2 refl refl refl refl three_bytes-below

abbrev as_it_is : Map Text → Map Text
as_it_is m = m

as_it_is-Iterates : Iterates as_it_is
as_it_is-Iterates m x = (λ h. h, λ h. h)

abbrev installed : Map Text
installed = (codes "curl", codes "8.5") ∷ (codes "vim", codes "9") ∷ []

abbrev golden : Map Text
golden = (codes "curl", codes "8.4") ∷ (codes "nano", codes "7") ∷ []

package_drift-In_example :
    (In (codes "curl", codes "8.5") (package_drift as_it_is installed golden).added
      ↔ (In (codes "curl", codes "8.5") installed × (get (codes "curl") golden ≡ none)))
    × (In (codes "curl", codes "8.5") (package_drift as_it_is installed golden).removed
        ↔ (In (codes "curl", codes "8.5") golden × (get (codes "curl") installed ≡ none)))
    × (In
          (codes "curl", (codes "8.4", codes "8.5"))
          (package_drift as_it_is installed golden).changed
        ↔ (In (codes "curl", codes "8.5") installed
            × (get (codes "curl") golden ≡ some (codes "8.4"))
            × (text_eq (codes "8.4") (codes "8.5") ≡ false)))
package_drift-In_example =
    package_drift-In as_it_is as_it_is-Iterates installed golden (codes "curl") (codes "8.5")
      (codes "8.4") (codes "8.5")

service_diff-compliant_example :
    (compliant (service_diff as_it_is installed golden) ≡ true)
    ↔ ((n want : Text) → In (n, want) golden → get n installed ≡ some want)
service_diff-compliant_example = service_diff-compliant as_it_is as_it_is-Iterates installed golden

abbrev observed : Ioc.Lists
observed = record { hashes = []; domains = codes "a.bad.test" ∷ []; ips = codes "10.0.0.1" ∷ [] }

abbrev indicators : Ioc.Lists
indicators = record { hashes = []; domains = codes "bad.test" ∷ []; ips = codes "10.0.0.1" ∷ [] }

abbrev sshd_text : Text
sshd_text = codes "# login\nPermitRootLogin yes\nPermitRootLogin no\n"

abbrev root_login : Finding
root_login = record {
  rule =
      rule_of (codes "permitrootlogin") (codes "no") high
        (codes "root should not log in over SSH directly") true;
  observed = some (codes "yes");
}

abbrev directives : Map Text
directives = (codes "permitrootlogin", codes "yes") ∷ []

lint_sshd-In_example : In root_login (lint_sshd directives) ↔ (
    In root_login.rule sshd_rules
    × (get (codes "permitrootlogin") directives ≡ some (codes "yes"))
    × (broken root_login.rule (some (codes "yes")) ≡ true))
lint_sshd-In_example = lint_sshd-In directives root_login

null-component_of : component_of json null ≡ none
unfolding component_of
null-component_of = refl

leap_day-IsDate : IsDate 2024 2 28
unfolding days_in_month
leap_day-IsDate = (omega arith, omega arith, omega arith, omega arith)

days_of-next_day_example : delta_of (days_of 2024 2 28) (days_of 2024 2 29) ≡ 1
unfolding next_day
days_of-next_day_example = days_of-next_day 2024 2 28 leap_day-IsDate

ssh_ports : parse_range (codes "22-24") ≡ ok (22 ∷ 23 ∷ 24 ∷ [])
unfolding parse_range
ssh_ports = refl

-- Every name resolves, and port 22 is open.
abbrev network : Network
network = record {
  Addr = ℕ;
  resolve = λ _ port. some port;
  connect = λ addr _. elim (text_eq (addr ∷ []) (22 ∷ [])) [ true ↦ some 5 | false ↦ none ];
}

abbrev scanned : PortScan.Output
scanned = record {
  host = codes "h";
  scanned = 2;
  open_count = 1;
  open_ports = record { port = 22; latency_ms = 5 } ∷ [];
  closed_count = 1;
}

scan_run : scan network (codes "h") 10 100 (22 ∷ 23 ∷ []) ≡ ok scanned
unfolding scan scan_ports text_eq
scan_run = refl

abbrev algorithms : Algorithms
algorithms = record { sha256 = hasher; sha1 = hasher; md5 = hasher }

digest_file-all_bytes_example :
    (digest_of (digest_file algorithms a_txt (codes "sha256"))
      ≡ digest_of_all hasher-IsStreaming
          (all_bytes (bytes (1 ∷ 2 ∷ []) ∷ bytes (7 ∷ []) ∷ bytes [] ∷ [])))
    × (sha256_file hasher a_txt
        ≡ digest_of_all hasher-IsStreaming
            (all_bytes (bytes (1 ∷ 2 ∷ []) ∷ bytes (7 ∷ []) ∷ bytes [] ∷ [])))
digest_file-all_bytes_example =
    digest_file-all_bytes algorithms hasher-IsStreaming a_txt refl refl refl

abbrev some_entries : Entries
some_entries = entry a_txt unlisted (failed (entry b_txt unlisted end))
