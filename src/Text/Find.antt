-- ===== src/Text/Find.antt =====
-- Suffixes and searches: `ends_with`, `contains` and `replace`.
use pantheon_tools_catalog.Prelude.{
  ℕ, zero, suc, ◌-◌, Bool, ◌||◌, [], ◌∷◌, ◌++◌, length, if◌then◌else◌,
}
use pantheon_tools_catalog.Text.{Text, text_eq, starts_with}

-- `s.ends_with(p)`
unfoldable pub ends_with : Text → Text → Bool
unfolding text_eq
ends_with p [] = text_eq p []
ends_with p (x ∷ xs) = text_eq p (x ∷ xs) || ends_with p xs

-- `s.contains(p)`
unfoldable pub contains : Text → Text → Bool
unfolding starts_with
contains p [] = starts_with p []
contains p (x ∷ xs) = starts_with p (x ∷ xs) || contains p xs

-- `s.replace(from, to)` for a `from` that is not empty: left to right, without overlaps. The count
-- of characters still to skip follows a match.
unfoldable pub replace_from : Text → Text → ℕ → Text → Text
unfolding starts_with
replace_from from to skip [] = []
replace_from from to (suc skip) (x ∷ xs) = replace_from from to skip xs
replace_from from to zero (x ∷ xs) =
    let found = to ++ replace_from from to (length from - 1) xs in
    let kept = x ∷ replace_from from to 0 xs in if starts_with from (x ∷ xs) then found else kept

unfoldable pub replace : Text → Text → Text → Text
unfolding replace_from
replace from to s = replace_from from to 0 s
