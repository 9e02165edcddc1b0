-- ===== src/Glob/Positions.antt =====
-- What an index of the pattern or of the name sees, and the tests of the loop there.
use pantheon_tools_catalog.Prelude.{
  ℕ, zero, suc, ◌≤◌, ◌<◌, ◌≡◌, refl, ◌⊎◌, inl, inr, true, ◌||◌, none, some, [], ◌∷◌, arith, ◌==◌,
  length, drop, get_elem?,
}
use pantheon_tools_catalog.Text.{Text}
use pantheon_tools_catalog.Glob.{one_char, is_star}

-- What an index of a text sees.
abbrev pub AtEnd : Text → ℕ → Type 0
AtEnd s i = (get_elem? s i ≡ none) × (drop i s ≡ []) × (length s ≤ i)

abbrev pub AtChar : Text → ℕ → ℕ → Type 0
AtChar s i x = (get_elem? s i ≡ some x) × (drop i s ≡ x ∷ drop (suc i) s) × (i < length s)

pub look : (s : Text) (i : ℕ) → AtEnd s i ⊎ ((x : ℕ) × AtChar s i x)
look [] zero = inl (refl, refl, omega arith)
look [] (suc i) = inl (refl, refl, omega arith)
look (x ∷ s) zero = inr (x, (refl, refl, omega arith))
look (x ∷ s) (suc i) = elim (look s i) [
  | inl (a, b, c) ↦ inl (a, b, omega arith)
  | inr (y, (a, b, c)) ↦ inr (y, (a, b, omega arith))
]

pub at_char : (t : Text) (mark : ℕ) → mark < length t → (x : ℕ) × AtChar t mark x
at_char t mark h = elim (look t mark) [ inl (_, _, g) ↦ absurd (omega arith) | inr r ↦ r ]

pub one_char-eq :
    (p t : Text) (pi ti x c : ℕ)
    → AtChar p pi x
    → AtChar t ti c
    → one_char p t pi ti ≡ (x == b'?' || x == c)
unfolding one_char
one_char-eq p t pi ti x c (a, _, _) (b, _, _) = rw (a, b, one_char)

pub is_star-eq : (p : Text) (pi x : ℕ) → AtChar p pi x → is_star p pi ≡ (x == b'*')
unfolding is_star
is_star-eq p pi x (a, _, _) = rw (a, is_star)

pub one_char→lt : (p t : Text) (pi ti : ℕ) → one_char p t pi ti ≡ true → pi < length p
unfolding one_char
one_char→lt p t pi ti h = elim (look p pi) [ inl (a, _, _) ↦ ground arith | inr (x, at) ↦ at.2 ]

pub is_star→lt : (p : Text) (pi : ℕ) → is_star p pi ≡ true → pi < length p
unfolding is_star
is_star→lt p pi h = elim (look p pi) [ inl (a, _, _) ↦ ground arith | inr (x, at) ↦ at.2 ]
