-- ===== src/Text/Decimal.antt =====
-- `to_string()` of an unsigned number, and `join(", ")`.
use pantheon_tools_catalog.Prelude.{
  ℕ, zero, suc, ◌+◌, ◌/◌, ◌%◌, List, [], ◌∷◌, ◌++◌, ltb, if◌then◌else◌,
}
use pantheon_tools_catalog.Text.{Text}

-- The digits, on fuel: a number has no more digits than its value, and one.
unfoldable pub digits : ℕ → ℕ → Text
digits zero n = (b'0' + n % 10) ∷ []
digits (suc fuel) n =
    let longer = digits fuel (n / 10) ++ (b'0' + n % 10) ∷ [] in
    if ltb n 10 then (b'0' + n) ∷ [] else longer

unfoldable pub to_string : ℕ → Text
unfolding digits
to_string n = digits n n

unfoldable pub join : Text → List Text → Text
join sep [] = []
join sep (x ∷ []) = x
join sep (x ∷ y ∷ r) = x ++ (sep ++ join sep (y ∷ r))
