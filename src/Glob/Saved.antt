-- ===== src/Glob/Saved.antt =====
-- What the last star of `glob_match` can still match, and why an older star is forgotten.
use pantheon_tools_catalog.Prelude.{
  ℕ, suc, ◌+◌, ◌≤◌, ◌≡◌, refl, ◌≢◌, inl, inr, Bool, true, false, ◌&&◌, ◌||◌, Option, none, some, [],
  ◌∷◌, arith, ◌==◌, length, take, drop, Bool-cases, Bool-ext, length-drop, ap,
}
use pantheon_tools_catalog.Text.{Text}
use pantheon_tools_catalog.Glob.{only_stars}
use pantheon_tools_catalog.Glob.Spec.{
  matches, some_suffix, some_suffix_intro, some_suffix_elim, matches_items, NoStar, NoStar-take-suc,
  drop-drop, drop_shift,
}
use pantheon_tools_catalog.Glob.Positions.{AtChar}

pub only_stars-eq-matches : (p : Text) → only_stars p ≡ matches p []
unfolding only_stars matches
only_stars-eq-matches [] = refl
only_stars-eq-matches (x ∷ p) = ground (arith, only_stars-eq-matches p)

pub matches-char :
    (x c : ℕ) (q u : Text)
    → x ≢ b'*'
    → matches (x ∷ q) (c ∷ u) ≡ ((x == b'?' || x == c) && matches q u)
unfolding matches
matches-char x c q u h = ground arith

pub matches-star : (x : ℕ) (q u : Text) → x ≡ b'*' → matches (x ∷ q) u ≡ some_suffix (matches q) u
unfolding matches
matches-star x q u h = ground arith

-- The matches still open at the last star: it takes one character more, or several.
abbrev pub later : Text → Text → Bool
later q [] = false
later q (c ∷ u) = some_suffix (matches q) u

abbrev pub saved_later : Text → Text → Option ℕ → ℕ → Bool
saved_later p t none mark = false
saved_later p t (some k) mark = later (drop (suc k) p) (drop mark t)

-- Since the last star, single characters were matched, as many in the pattern as in the text.
abbrev pub Saved : Text → ℕ → ℕ → Option ℕ → ℕ → Type 0
Saved p pi ti none mark = Unit {0}
Saved p pi ti (some k) mark =
    (n : ℕ) × (pi ≡ suc k + n)
    × (ti ≡ mark + n)
    × (n ≤ length (drop (suc k) p))
    × NoStar (take n (drop (suc k) p))

-- At a second star the first one is forgotten: whatever it could still match, the second can.
pub later-covered :
    (n : ℕ) (q u r : Text)
    → n ≤ length q
    → NoStar (take n q)
    → drop n q ≡ b'*' ∷ r
    → later q u ≡ true
    → some_suffix (matches r) (drop n u) ≡ true
later-covered n q [] r b s e h = ground arith
later-covered n q (c ∷ u) r b s e h =
    let (k, m) = some_suffix_elim (matches q) u h in
    let (m', _) = matches_items n q (drop k u) b s m in
    let m'' : matches (b'*' ∷ r) (drop n (drop k u)) ≡ true = rw e at m' in
    let (j, g) = some_suffix_elim (matches r) (drop n (drop k u)) (unfold matches in m'') in
    some_suffix_intro (matches r) (j + suc k) (drop n (c ∷ u)) (rw drop_shift g)

pub later-at_end :
    (n : ℕ) (q u : Text) → n ≤ length q → NoStar (take n q) → drop n u ≡ [] → later q u ≡ false
later-at_end n q [] b s e = refl
later-at_end n q (c ∷ u) b s e = elim (Bool-cases (some_suffix (matches q) u)) [
  | inr no_later ↦ no_later
  | inl h ↦
      let (k, m) = some_suffix_elim (matches q) u h in
      let (_, short) = matches_items n q (drop k u) b s m in
      absurd (omega (arith, length-drop k u, length-drop n (c ∷ u), ap length e))
]

pub saved_later-at_end :
    (p t : Text) (pi ti mark : ℕ) (star : Option ℕ)
    → Saved p pi ti star mark
    → drop ti t ≡ []
    → saved_later p t star mark ≡ false
saved_later-at_end p t pi ti mark none s e = refl
saved_later-at_end p t pi ti mark (some k) (n, a, b, c, d) e =
    later-at_end n (drop (suc k) p) (drop mark t) c d (rw drop-drop (rw (← b) e))

pub Saved-char :
    (p : Text) (pi ti mark x : ℕ) (star : Option ℕ)
    → x ≢ b'*'
    → AtChar p pi x
    → Saved p pi ti star mark
    → Saved p (suc pi) (suc ti) star mark
Saved-char p pi ti mark x none h c s = tt
Saved-char p pi ti mark x (some k) h (_, e, l) (n, a, b, c, d) = (
  suc n,
  omega arith,
  omega arith,
  omega (arith, length-drop (suc k) p),
  NoStar-take-suc n (drop (suc k) p) (drop (suc pi) p) x d (rw drop-drop (rw (← a) e)) h,
)

pub later-step : (q v : Text) → matches q v || later q v ≡ some_suffix (matches q) v
unfolding some_suffix
later-step q [] = ground arith
later-step q (c ∷ v) = refl

pub or_absorb : (a b : Bool) → (b ≡ true → a ≡ true) → (a || b) ≡ a
or_absorb true b h = refl
or_absorb false b h = Bool-ext _ _ h (λ e. ground arith)

-- At a star in the pattern the older star has nothing left to add.
pub star-covers :
    (p t : Text) (pi ti mark : ℕ) (star : Option ℕ)
    → Saved p pi ti star mark
    → AtChar p pi b'*'
    → saved_later p t star mark ≡ true
    → some_suffix (matches (drop (suc pi) p)) (drop ti t) ≡ true
star-covers p t pi ti mark none s at h = ground arith
star-covers p t pi ti mark (some k) (n, a, b, c, d) (_, e, _) h =
    let g =
      later-covered n (drop (suc k) p) (drop mark t) (drop (suc pi) p) c d
        (rw drop-drop (rw (← a) e)) h in
    rw b (rw drop-drop at g)
