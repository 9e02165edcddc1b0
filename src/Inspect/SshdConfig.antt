-- ===== src/Inspect/SshdConfig.antt =====
-- tools/config-lint/src/main.rs. The `HashMap` of directives is asked for single keys and its size.
pub mod Lint
use pantheon_tools_catalog.Prelude.{
  ℕ, Bool, true, false, not, ◌||◌, Option, none, some, List, [], ◌∷◌, length, filter_map, foldl,
  if◌then◌else◌, unwrap_or, ok_or, ensure, Result, ok, err, ◌>>=◌, ◌>>◌, ◌==◌, is_empty,
}
use pantheon_tools_catalog.Text.{
  Text, codes, text_eq, to_lower, eq_ignore_case, trim, lines, is_space, starts_with,
}
use pantheon_tools_catalog.Serde.{Serde, str_arg}
use pantheon_tools_catalog.Map.{Map, get, contains_key, insert}

pub data Error : Type 0 where
  args_not_json kind_missing content_missing unsupported_kind : Error

-- `splitn(2, char::is_whitespace)`, where it gives two parts
unfoldable pub split_space : Text → Option (Text × Text)
unfolding is_space
split_space [] = none
split_space (c ∷ s) =
    let later = split_space s in
    if is_space c then some ([], s) else elim later [ none ↦ none | some (k, v) ↦ some (c ∷ k, v) ]

-- The directive of a line: its key in lower case, and its value.
unfoldable pub directive_of : Text → Option (Text × Text)
unfolding trim split_space to_lower starts_with
directive_of line =
    let l = trim line in
    if is_empty l || starts_with (codes "#") l
    then none
    else elim (split_space l) [ none ↦ none | some (k, v) ↦ some (to_lower k, trim v) ]

-- `map.entry(k).or_insert_with(..)`
unfoldable pub or_insert : Map Text → Text × Text → Map Text
unfolding contains_key insert
or_insert m (k, v) = if contains_key k m then m else insert k v m

-- the loop over the lines
unfoldable pub parse_lines : Map Text → List Text → Map Text
parse_lines m [] = m
parse_lines m (line ∷ rest) = elim (directive_of line) [
  | none ↦ parse_lines m rest
  | some d ↦ parse_lines (or_insert m d) rest
]

unfoldable pub parse_directives : Text → Map Text
parse_directives content = parse_lines [] (lines content)

pub data Severity : Type 0 where
  low medium high critical : Severity

pub record Rule : Type 0 where
  pub directive : Text
  pub expected : Text
  pub severity : Severity
  pub note : Text
  pub absent_is_finding : Bool

abbrev pub rule_of : Text → Text → Severity → Text → Bool → Rule
rule_of d e s n a = record {
  directive = d;
  expected = e;
  severity = s;
  note = n;
  absent_is_finding = a;
}

abbrev pub sshd_rules : List Rule
sshd_rules =
    rule_of (codes "permitrootlogin") (codes "no") high
      (codes "root should not log in over SSH directly") true
    ∷ rule_of (codes "passwordauthentication") (codes "no") high
        (codes "prefer key-based auth; disable password auth") true
    ∷ rule_of (codes "permitemptypasswords") (codes "no") critical
        (codes "empty passwords must never be accepted") false
    ∷ rule_of (codes "x11forwarding") (codes "no") medium
        (codes "disable X11 forwarding unless required") false
    ∷ rule_of (codes "maxauthtries") (codes "4") low (codes "cap auth attempts (<=4 recommended)")
        false
    ∷ rule_of (codes "clientaliveinterval") (codes "300") low (codes "set an idle client timeout")
        false
    ∷ []

-- `observed` is `none` for the text that stands for an absent directive.
pub record Finding : Type 0 where
  pub rule : Rule
  pub observed : Option Text

-- the body of `for r in SSHD_RULES`
unfoldable pub check_rule : Map Text → Rule → Option Finding
unfolding get eq_ignore_case
check_rule dirs r = elim (get r.directive dirs) [
  | some v ↦
      if eq_ignore_case v r.expected then none else some (record { rule = r; observed = some v })
  | none ↦ if r.absent_is_finding then some (record { rule = r; observed = none }) else none
]

unfoldable pub lint_sshd : Map Text → List Finding
unfolding check_rule
lint_sshd dirs = filter_map (check_rule dirs) sshd_rules

pub record Output : Type 0 where
  pub kind : Text
  pub evaluated : ℕ
  pub finding_count : ℕ
  pub findings : List Finding

unfoldable pub run : Serde → Option Text → Result Error Output
unfolding parse_directives parse_lines lines directive_of or_insert lint_sshd text_eq
run j raw = do
  a ← ok_or (j.from_str (unwrap_or raw (codes "{}"))) args_not_json
  kind ← ok_or (str_arg j a "kind") kind_missing
  content ← ok_or (str_arg j a "content") content_missing
  let dirs = parse_directives content
  ensure (text_eq kind (codes "sshd") || text_eq kind (codes "sshd_config")) unsupported_kind
  let findings = lint_sshd dirs
  ok (record {
    kind = kind;
    evaluated = length dirs;
    finding_count = length findings;
    findings = findings;
  })
