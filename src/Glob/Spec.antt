-- ===== src/Glob/Spec.antt =====
-- What a glob means, without a search order: a star stands for any run of characters.
use pantheon_tools_catalog.Prelude.{
  ℕ, zero, suc, ◌+◌, ◌≤◌, ◌≡◌, sym, ◌∙◌, ◌≢◌, Bool, true, false, ◌&&◌, ◌||◌, [], ◌∷◌, arith, ◌==◌,
  if◌then◌else◌, length, take, drop, All, drop_nil, Bool-cases, inl, inr,
}
use pantheon_tools_catalog.Text.{Text}

-- Some suffix of the text satisfies `f`.
unfoldable pub some_suffix : (Text → Bool) → Text → Bool
some_suffix f [] = f []
some_suffix f (c ∷ s) = f (c ∷ s) || some_suffix f s

abbrev pub accepts : ℕ → (Text → Bool) → Text → Bool
accepts x f [] = false
accepts x f (c ∷ s) = (x == b'?' || x == c) && f s

unfoldable pub matches : Text → Text → Bool
unfolding some_suffix
matches [] [] = true
matches [] (c ∷ s) = false
matches (x ∷ p) s = if x == b'*' then some_suffix (matches p) s else accepts x (matches p) s

abbrev pub NoStar : Text → Type 0
NoStar = All (λ c. c ≢ b'*')

pub drop-drop : (m n : ℕ) (s : Text) → drop m (drop n s) ≡ drop (n + m) s
drop-drop m zero s = let e : 0 + m ≡ m = omega arith in rw e
drop-drop m (suc n) [] = drop_nil m ∙ sym (drop_nil (suc n + m))
drop-drop m (suc n) (c ∷ s) =
    let e : suc n + m ≡ suc (n + m) = omega arith in rw e (drop-drop m n s)

pub drop_shift :
    (j k n c : ℕ) (u : Text) → drop (j + suc k) (drop n (c ∷ u)) ≡ drop j (drop n (drop k u))
drop_shift j k n c u =
    let e : n + (j + suc k) ≡ suc (k + (n + j)) = omega arith in
    rw (drop-drop, drop-drop, drop-drop, e)

pub NoStar-drop : (n : ℕ) (s : Text) → NoStar s → NoStar (drop n s)
NoStar-drop zero s h = h
NoStar-drop (suc n) [] h = tt
NoStar-drop (suc n) (c ∷ s) h = NoStar-drop n s h.1

pub some_suffix_intro :
    (f : Text → Bool) (n : ℕ) (s : Text) → f (drop n s) ≡ true → some_suffix f s ≡ true
unfolding some_suffix
some_suffix_intro f zero [] h = h
some_suffix_intro f zero (c ∷ s) h = ground arith
some_suffix_intro f (suc n) [] h = h
some_suffix_intro f (suc n) (c ∷ s) h = ground (arith, some_suffix_intro f n s h)

pub some_suffix_elim :
    (f : Text → Bool) (s : Text) → some_suffix f s ≡ true → (n : ℕ) × (f (drop n s) ≡ true)
unfolding some_suffix
some_suffix_elim f [] h = (0, h)
some_suffix_elim f (c ∷ s) h = elim (Bool-cases (f (c ∷ s))) [
  | inl here ↦ (0, here)
  | inr later ↦ let (n, r) = some_suffix_elim f s (ground arith) in (suc n, r)
]

-- A match consumes one character for each item before the first star.
pub matches_items :
    (n : ℕ) (q u : Text)
    → n ≤ length q
    → NoStar (take n q)
    → matches q u ≡ true
    → (matches (drop n q) (drop n u) ≡ true) × (n ≤ length u)
unfolding matches
matches_items zero q u b s h = (h, omega arith)
matches_items (suc n) [] u b s h = absurd (omega arith)
matches_items (suc n) (x ∷ q) [] b s h = ground arith
matches_items (suc n) (x ∷ q) (c ∷ u) b s h = ground (arith, matches_items n q u)

pub NoStar-take-suc :
    (n : ℕ) (q r : Text) (x : ℕ)
    → NoStar (take n q)
    → drop n q ≡ x ∷ r
    → x ≢ b'*'
    → NoStar (take (suc n) q)
NoStar-take-suc zero [] r x s e h = ground arith
NoStar-take-suc zero (y ∷ q) r x s e h = ground arith
NoStar-take-suc (suc n) [] r x s e h = ground arith
NoStar-take-suc (suc n) (y ∷ q) r x s e h = (s.0, NoStar-take-suc n q r x s.1 e h)
