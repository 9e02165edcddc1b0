-- ===== src/Glob/Total.antt =====
-- The fuel of `glob_match`, and names that hold a `*`.
use pantheon_tools_catalog.Prelude.{
  ℕ, zero, suc, ◌+◌, ◌-◌, ◌*◌, ◌≤◌, ◌<◌, ◌≡◌, ◌≢◌, false, Option, none, some, ◌∷◌, arith, length,
}
use pantheon_tools_catalog.Text.{Text, codes}
use pantheon_tools_catalog.Glob.{glob_loop, glob_run, glob_match}
use pantheon_tools_catalog.Glob.Positions.{one_char→lt, is_star→lt}

abbrev StarBound : Text → ℕ → ℕ → Option ℕ → ℕ → ℕ → Type 0
StarBound t m np none mark ti = Unit {0}
StarBound t m np (some k) mark ti = (k < np) × (mark ≤ ti) × (length t ≤ m + mark)

glob_loop-ne-none :
    (fuel : ℕ) (p t : Text) (m pi ti mark : ℕ) (star : Option ℕ)
    → pi ≤ length p
    → length t ≤ m + ti
    → m * (length p + 1) + (length p - pi) < fuel
    → StarBound t m (length p) star mark ti
    → glob_loop fuel p t pi ti star mark ≢ none
unfolding glob_loop
glob_loop-ne-none zero p t m pi ti mark star a b c d = absurd (omega arith)
glob_loop-ne-none (suc fuel) p t m pi ti mark none a b c d = ground (
  arith,
  one_char→lt p t pi ti,
  is_star→lt p pi,
  glob_loop-ne-none fuel p t m (suc pi) (suc ti) mark none,
  glob_loop-ne-none fuel p t m (suc pi) ti ti (some pi),
)
glob_loop-ne-none (suc fuel) p t zero pi ti mark (some k) a b c d = ground (
  arith,
  one_char→lt p t pi ti,
  is_star→lt p pi,
  glob_loop-ne-none fuel p t 0 (suc pi) (suc ti) mark (some k),
  glob_loop-ne-none fuel p t 0 (suc pi) ti ti (some pi),
)
glob_loop-ne-none (suc fuel) p t (suc m) pi ti mark (some k) a b c d = ground (
  arith,
  one_char→lt p t pi ti,
  is_star→lt p pi,
  glob_loop-ne-none fuel p t (suc m) (suc pi) (suc ti) mark (some k),
  glob_loop-ne-none fuel p t (suc m) (suc pi) ti ti (some pi),
  glob_loop-ne-none fuel p t m (suc k) (suc mark) (suc mark) (some k),
)

-- `glob_match` comes to an answer on every pattern and every name.
pub glob_run-ne-none : (p t : Text) → glob_run p t ≢ none
unfolding glob_run
glob_run-ne-none p t =
    glob_loop-ne-none ((length t + 1) * (length p + 1)) p t (length t) 0 0 0 none (omega arith)
      (omega arith) (omega arith) tt

-- A name that begins with `*` and goes on: the star of the pattern is spent as a plain character.
pub glob_match-star_name : (c : ℕ) (s : Text) → glob_match (codes "*") (b'*' ∷ c ∷ s) ≡ false
unfolding glob_match
glob_match-star_name c s =
    let e : (length (b'*' ∷ c ∷ s) + 1) * (length (codes "*") + 1) ≡ suc (suc (2 * length s + 4)) =
      omega arith in
    rw e (ground arith)
