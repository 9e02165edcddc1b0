-- ===== src/Patterns.antt =====
-- `regex_lite`, which is not part of the repository, for the tools that read what a pattern
-- captures: tools/secret-scan/src/main.rs and tools/log-triage/src/main.rs.
use pantheon_tools_catalog.Prelude.{ℕ, Bool, Option, List, get_elem?, and_then}
use pantheon_tools_catalog.Text.{Text}

-- `Match`, with the places counted in characters
pub record Match : Type 0 where
  pub start : ℕ
  pub stop : ℕ
  pub matched : Text

-- `Captures`: the whole match, then the groups, which need not take part
abbrev pub Captures : Type 0
Captures = List (Option Match)

-- `caps.get(i)`
abbrev pub group : Captures → ℕ → Option Match
group c i = and_then (get_elem? c i) (λ m. m)

pub record Patterns : Type 1 where
  pub Regex : Type 0
  -- `Regex::new(..).ok()`
  pub new : Text → Option Regex
  pub is_match : Regex → Text → Bool
  pub captures : Regex → Text → Option Captures
  pub captures_iter : Regex → Text → List Captures
  pub find_iter : Regex → Text → List Match
