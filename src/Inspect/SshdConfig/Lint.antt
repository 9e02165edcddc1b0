-- ===== src/Inspect/SshdConfig/Lint.antt =====
-- What config-lint takes from a file, and what it reports.
use pantheon_tools_catalog.Prelude.{
  ◌≡◌, ◌↔◌, refl, sym, subst, ◌∙◌, ap, Bool, true, not, Option, none, some, List, [], ◌∷◌,
  filter_map, In, In-filter_map, if◌then◌else◌, arith, Option-cases, inl, inr,
}
use pantheon_tools_catalog.Text.{Text, text_eq, lines, eq_ignore_case}
use pantheon_tools_catalog.Text.Order.{text_eq_iff}
use pantheon_tools_catalog.Map.{Map, get, get-insert, contains_key-get}
use pantheon_tools_catalog.Inspect.SshdConfig.{
  Rule, Finding, directive_of, or_insert, parse_lines, parse_directives, check_rule, lint_sshd,
  sshd_rules,
}

abbrev first_of : Option Text → Option Text → Option Text
first_of none o = o
first_of (some v) o = some v

-- The value that the first directive with the key gives.
abbrev pub first_value : Text → List (Text × Text) → Option Text
first_value k [] = none
first_value k ((j, v) ∷ ds) = if text_eq j k then some v else first_value k ds

get-or_insert :
    (k j v : Text) (m : Map Text)
    → get k (or_insert m (j, v)) ≡ first_of (get k m) (if text_eq j k then some v else none)
unfolding or_insert
get-or_insert k j v m = ground (arith, contains_key-get j m, get-insert j k v m, text_eq_iff j k)

first_of_assoc : (a b c : Option Text) → first_of (first_of a b) c ≡ first_of a (first_of b c)
first_of_assoc none b c = refl
first_of_assoc (some a) b c = refl

get-parse_lines :
    (k : Text) (m : Map Text) (ls : List Text)
    → get k (parse_lines m ls) ≡ first_of (get k m) (first_value k (filter_map directive_of ls))
unfolding parse_lines
get-parse_lines k m [] = ground arith
get-parse_lines k m (l ∷ ls) = elim (Option-cases (directive_of l)) [
  | inl blank ↦ rw (blank, parse_lines, filter_map) (get-parse_lines k m ls)
  | inr ((j, v), found) ↦
      rw (found, parse_lines, filter_map)
        (get-parse_lines k (or_insert m (j, v)) ls
          ∙ ap (λ o. first_of o (first_value k (filter_map directive_of ls)))
              (get-or_insert k j v m)
          ∙ first_of_assoc (get k m) (if text_eq j k then some v else none)
              (first_value k (filter_map directive_of ls))
          ∙ ap (first_of (get k m)) (ground arith))
]

-- The value of a directive is the one that its first line in the file gives.
pub parse_directives-first_value :
    (k content : Text)
    → get k (parse_directives content) ≡ first_value k (filter_map directive_of (lines content))
unfolding parse_directives get
parse_directives-first_value k content = get-parse_lines k [] (lines content)

abbrev verdict : Rule → Option Text → Option Finding
verdict r (some v) =
    if eq_ignore_case v r.expected then none else some (record { rule = r; observed = some v })
verdict r none = if r.absent_is_finding then some (record { rule = r; observed = none }) else none

abbrev pub broken : Rule → Option Text → Bool
broken r none = r.absent_is_finding
broken r (some v) = not (eq_ignore_case v r.expected)

verdict-some :
    (r : Rule) (o : Option Text) (f : Finding)
    → verdict r o ≡ some f
    → (record { rule = r; observed = o } ≡ f) × (broken r o ≡ true)
verdict-some r none f h = ground arith
verdict-some r (some v) f h = ground arith

verdict-broken :
    (r : Rule) (o : Option Text)
    → broken r o ≡ true
    → verdict r o ≡ some (record { rule = r; observed = o })
verdict-broken r none h = ground arith
verdict-broken r (some v) h = ground arith

check_rule-verdict :
    (dirs : Map Text) (r : Rule) → check_rule dirs r ≡ verdict r (get r.directive dirs)
unfolding check_rule
check_rule-verdict dirs r = ground arith

-- config-lint reports a finding exactly if its rule is one of the rules, what it shows as observed is
-- the value of the directive, or its lack, and that breaks the rule: a value that is not the expected
-- one in any case of letters, or a lack where the rule counts it.
pub lint_sshd-In :
    (dirs : Map Text) (f : Finding)
    → In f (lint_sshd dirs) ↔ (
        In f.rule sshd_rules
        × (get f.rule.directive dirs ≡ f.observed)
        × (broken f.rule f.observed ≡ true))
unfolding lint_sshd
lint_sshd-In dirs f =
    let (to, from) = In-filter_map f (check_rule dirs) sshd_rules in
    (
      λ h.
          let (r, listed, e) = to h in
          let (same, bad) =
            verdict-some r (get r.directive dirs) f (sym (check_rule-verdict dirs r) ∙ e) in
          (
            subst (λ g. In g.rule sshd_rules) same listed,
            subst (λ g. get g.rule.directive dirs ≡ g.observed) same refl,
            subst (λ g. broken g.rule g.observed ≡ true) same bad,
          ),
      λ (listed, seen, bad). from (
        f.rule,
        listed,
        check_rule-verdict dirs f.rule
            ∙ ap (verdict f.rule) seen
            ∙ verdict-broken f.rule f.observed bad,
      ),
    )
