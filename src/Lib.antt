-- ===== src/Lib.antt =====
-- pantheon-tools-catalog: the Rust tools under tools/, each a WebAssembly component with a `run` that
-- reads one JSON argument and gives a result or an error, and a `main` that prints it. The tools do not
-- call one another; they share text by copying it (the glob matcher, the walk, the read loop), and the
-- output of fim-snapshot is an input of fim-diff.
--
-- Each tool is modelled by its parts, from the reading of the arguments to the fields of the result.
-- What the tools only call is a parameter: serde_json (Serde), SHA-256 (Hash.Hasher), the regex library
-- (Grep.Regexes, Patterns), the file system as one snapshot of a tree (Fs.World), the network (Net), and the host
-- interfaces for packages and services (Remediate). Texts are lists of code points (Text); errors are
-- constructors, without their wording; a usize has 32 bits, as on wasm32.
--
-- Files, and the functions of tools/<name>/src/main.rs that they model:
--   Glob       `glob_match`, the same in five tools; the loop runs on fuel, (length of the name + 1) *
--              (length of the pattern + 1) rounds, see Glob/Total
--   Walk       `walk`, over what differs between the tools; Walk/Spec lists what it visits
--   Hash       `sha256_file`, `hex_lower`; the loop of fs-hash is its own, in Inspect/DigestFile
--   Map, Sort  BTreeMap and the stable sort of the standard library
--   Fim        fim-snapshot (Snapshot) and fim-diff (Diff: Baseline for `load_baseline`, Compare for the
--              comparing loops). `load_baseline` calls itself on the document of a file; it has fuel 2,
--              one level for the arguments and one for the file that they name (Fim/Diff/Levels).
--              Fim/RoundTrip takes the two tools together
--   Find, Grep fs-find and fs-grep
--   Vuln       vuln-match, with `ver_cmp` in Vuln/Version
--   Remediate  package-remediate (Package, with `ver_ge` in VersionGe) and service-remediate (Service),
--              in a monad of actions that notes the writes asked of the host (Exec)
--   Inspect    fs-read (ReadFile, Base64), fs-hash (DigestFile), fs-list (ListDir), package-drift and
--              service-baseline-diff (Inventory), ioc-match (Ioc), config-lint (SshdConfig),
--              sbom-generate (Sbom), eol-check (Eol)
--   Net        port-scan (PortScan), banner-grab (Banner), net-sweep (Sweep), dns-resolve (Resolve),
--              port-check (Reach) and tls-inspect (Tls)
--   Patterns   what secret-scan and log-triage ask of the regex library
--   Masking    `masked_excerpt`, the same in both: Merged for the spans, Hidden for what is shown
--   Secrets    secret-scan: Scan for `scan_line`, `scan_file` and `walk`
--   Triage     log-triage: Acc for `Acc::new` and `push`, Ipv4 for `is_public_ipv4`, Times for the
--              timestamps, Scan for `scan_file` and `walk`, Report for `run`. Log is the abstract view
--              of `Acc`, the list of all findings; Found reads the findings of a file off its lines.
--              Sights are the addresses as the lines show them, Table what the map of addresses holds
--              after them, and Ranked the order in which they are reported
--   Compliance compliance-scan: Host for the trait `Host` and `Node`, Sshd for `scan` and
--              `sshd_effective`, Outcomes for `res`, Config for `eval_config`, Rules for `eval_rule`,
--              Compliance itself for `evaluate` and `run`. The depth of includes is counted down, from INCLUDE_MAX_DEPTH to 0
--   Sockets    socket-inventory: Address for the classes of addresses, Services for `services`, Budget
--              for `fit_budget`, whose loops have as much fuel as there is left to drop (Budget/Fits)
--   Query      json-query: `navigate`, and `run` from the source of the document to the result;
--              Reaches for where a path leads, without reference to `navigate`
--   Entropy    text-entropy: the loop over the bytes and the counts; Lines for its number of lines
--   Posture    package-check (PackageCheck), service-status (ServiceStatus), package-inventory
--              (Inventory), os-fingerprint (OsFingerprint) and sysinfo (SysInfo)
--   Prelude    shared helpers; Examples: concrete inputs
--
-- Not modelled: `shannon` of secret-scan, which is a test that the model is given, and the entropy and
-- ratios of text-entropy, which are floating point; `main` where it only prints, the wording of
-- messages, and the Python librarian.
pub mod Prelude
pub mod Text
pub mod Glob
pub mod Serde
pub mod Fs
pub mod Walk
pub mod Map
pub mod Sort
pub mod Hash
pub mod Fim
pub mod Find
pub mod Grep
pub mod Vuln
pub mod Remediate
pub mod Compliance
pub mod Entropy
pub mod Examples
pub mod Inspect
pub mod Masking
pub mod Net
pub mod Patterns
pub mod Posture
pub mod Query
pub mod Secrets
pub mod Sockets
pub mod Triage
