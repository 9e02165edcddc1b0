-- ===== src/Glob.antt =====
-- The file-name glob that the file tools carry: tools/fim-diff/src/main.rs, `glob_match`
-- (fim-snapshot, fs-find, fs-grep, secret-scan and log-triage hold the same text).
-- A pattern and a name are lists of characters, as `chars().collect()` makes them.
pub mod Spec
mod Positions
mod Saved
pub mod Decides
pub mod Total
use pantheon_tools_catalog.Prelude.{
  ℕ, zero, suc, ◌+◌, ◌*◌, Bool, true, false, ◌&&◌, ◌||◌, Option, none, some, List, [], ◌∷◌, ltb,
  ◌==◌, if◌then◌else◌, length, get_elem?, drop, unwrap_or,
}
use pantheon_tools_catalog.Text.{Text}

-- `pi < p.len() && (p[pi] == '?' || p[pi] == t[ti])`, where `ti` is in range
pub one_char : Text → Text → ℕ → ℕ → Bool
one_char p t pi ti = elim (get_elem? p pi) [
  | none ↦ false
  | some x ↦ elim (get_elem? t ti) [ none ↦ false | some c ↦ x == b'?' || x == c ]
]

-- `pi < p.len() && p[pi] == '*'`
pub is_star : Text → ℕ → Bool
is_star p pi = elim (get_elem? p pi) [ none ↦ false | some x ↦ x == b'*' ]

-- the second loop and the final test, on what is left of the pattern
pub only_stars : Text → Bool
only_stars [] = true
only_stars (x ∷ p) = x == b'*' && only_stars p

-- The first loop. `star` is `none` for `usize::MAX`, which no index reaches. The result `none`
-- means that the fuel ran out.
pub glob_loop : ℕ → Text → Text → ℕ → ℕ → Option ℕ → ℕ → Option Bool
glob_loop zero p t pi ti star mark = none
glob_loop (suc fuel) p t pi ti star mark = elim (ltb ti (length t)) [
  | true ↦ elim (one_char p t pi ti) [
    | true ↦ glob_loop fuel p t (suc pi) (suc ti) star mark
    | false ↦ elim (is_star p pi) [
      | true ↦ glob_loop fuel p t (suc pi) ti (some pi) ti
      | false ↦ elim star [
        | none ↦ some false
        | some s ↦ glob_loop fuel p t (suc s) (suc mark) (some s) (suc mark)
      ]
    ]
  ]
  | false ↦ some (only_stars (drop pi p))
]

unfoldable pub glob_run : Text → Text → Option Bool
unfolding glob_loop one_char is_star only_stars
glob_run p t = glob_loop ((length t + 1) * (length p + 1)) p t 0 0 none 0

unfoldable pub glob_match : Text → Text → Bool
unfolding glob_run
glob_match p t = unwrap_or (glob_run p t) false
