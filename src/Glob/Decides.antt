-- ===== src/Glob/Decides.antt =====
-- The loop of `glob_match`, beside the meaning of a glob.
use pantheon_tools_catalog.Prelude.{
  ℕ, zero, suc, ◌+◌, ◌*◌, ◌≤◌, ◌<◌, ◌≡◌, ◌≢◌, inl, inr, Bool, true, false, ◌||◌, Option, none, some,
  arith, ltb, ◌==◌, length, drop, Bool-cases, length-drop, ap, ◌∙◌, unwrap_or,
}
use pantheon_tools_catalog.Text.{Text}
use pantheon_tools_catalog.Glob.{glob_loop, glob_run, glob_match, one_char, is_star}
use pantheon_tools_catalog.Glob.Spec.{matches, some_suffix, NoStar, NoStar-drop}
use pantheon_tools_catalog.Glob.Positions.{AtEnd, AtChar, look, at_char, one_char-eq, is_star-eq}
use pantheon_tools_catalog.Glob.Saved.{
  saved_later, Saved, saved_later-at_end, Saved-char, later-step, star-covers, or_absorb,
  matches-char, matches-star, only_stars-eq-matches,
}

-- The loop answers what is still open, within the fuel that the rounds left need.
abbrev still_open : Text → Text → ℕ → ℕ → Option ℕ → ℕ → Bool
still_open p t pi ti star mark = matches (drop pi p) (drop ti t) || saved_later p t star mark

-- `m` bounds the text that a retry can still give up.
record Inv (p t : Text) (fuel m pi ti : ℕ) (star : Option ℕ) (mark : ℕ) : Type 0 where
  saved : Saved p pi ti star mark
  text_bound : length (drop ti t) ≤ m
  mark_bound : length (drop mark t) ≤ m
  fuel_bound : m * (length p + 1) + length (drop pi p) < fuel

abbrev Answers : ℕ → Text → Text → ℕ → ℕ → Option ℕ → ℕ → Type 0
Answers fuel p t pi ti star mark =
    glob_loop fuel p t pi ti star mark ≡ some (still_open p t pi ti star mark)

abbrev AnswersNext : ℕ → Text → Text → Type 0
AnswersNext fuel p t =
    (m pi ti mark : ℕ) (star : Option ℕ)
    → Inv p t fuel m pi ti star mark
    → Answers fuel p t pi ti star mark

-- The `else if star != usize::MAX` branch and the last one.
retry-Answers :
    (fuel : ℕ) (p t : Text) (m pi ti c mark : ℕ) (star : Option ℕ)
    → AnswersNext fuel p t
    → Inv p t (suc fuel) m pi ti star mark
    → AtChar t ti c
    → matches (drop pi p) (drop ti t) ≡ false
    → one_char p t pi ti ≡ false
    → is_star p pi ≡ false
    → Answers (suc fuel) p t pi ti star mark
unfolding glob_loop
retry-Answers fuel p t m pi ti c mark none ih i (_, _, l) fails a b =
    let e : ltb ti (length t) ≡ true = ground arith in rw (e, a, b, fails, glob_loop)
retry-Answers fuel p t zero pi ti c mark (some k) ih i (_, _, l) fails a b =
    absurd (omega (arith, i.saved, length-drop mark t, i.mark_bound))
retry-Answers fuel p t (suc m) pi ti c mark (some k) ih i (_, _, l) fails a b =
    let (n, _, at, _, _) = i.saved in
    let e : ltb ti (length t) ≡ true = ground arith in
    let (y, (_, d, _)) = at_char t mark (omega arith) in
    rw (e, a, b, glob_loop, fails, d, ← later-step (drop (suc k) p) (drop (suc mark) t))
      (ih m (suc k) (suc mark) (suc mark) (some k) (record {
        saved = (0, omega arith, omega arith, omega arith, tt);
        text_bound = omega (arith, length-drop (suc mark) t, length-drop mark t);
        mark_bound = omega (arith, length-drop (suc mark) t, length-drop mark t);
        fuel_bound = omega (arith, length-drop (suc k) p, i.fuel_bound);
      }))

exhausted-Answers :
    (fuel : ℕ) (p t : Text) (m pi ti c mark : ℕ) (star : Option ℕ)
    → AnswersNext fuel p t
    → Inv p t (suc fuel) m pi ti star mark
    → AtChar t ti c
    → AtEnd p pi
    → Answers (suc fuel) p t pi ti star mark
unfolding one_char is_star matches
exhausted-Answers fuel p t m pi ti c mark star ih i (at, dt, lt) (g, d, _) =
    retry-Answers fuel p t m pi ti c mark star ih i (at, dt, lt) (rw (d, dt)) (rw (g, one_char))
      (rw (g, is_star))

module _ (fuel : ℕ) (p t : Text) (m pi ti c x mark : ℕ) (star : Option ℕ)
    (ih : AnswersNext fuel p t) (i : Inv p t (suc fuel) m pi ti star mark) (at : AtChar t ti c)
    (px : AtChar p pi x) (plain : c ≢ b'*') where
  -- one character against one item
  item-Answers : (x == b'?' || x == c) ≡ true → Answers (suc fuel) p t pi ti star mark
  unfolding glob_loop
  item-Answers h =
      let e : ltb ti (length t) ≡ true = ground (arith, at.2) in
      let o : one_char p t pi ti ≡ true = one_char-eq p t pi ti x c px at ∙ h in
      let not_star : x ≢ b'*' = ground arith in
      let mc = matches-char x c (drop (suc pi) p) (drop (suc ti) t) not_star in
      rw (e, o, glob_loop, px.1, at.1, mc, h)
        (ih m (suc pi) (suc ti) mark star (record {
          saved = Saved-char p pi ti mark x star not_star px i.saved;
          text_bound = omega (arith, i.text_bound, length-drop ti t, length-drop (suc ti) t);
          mark_bound = i.mark_bound;
          fuel_bound = omega (arith, i.fuel_bound, length-drop pi p, length-drop (suc pi) p, px.2);
        }))

  -- a star in the pattern
  star-Answers :
      (x == b'?' || x == c) ≡ false → (x == b'*') ≡ true → Answers (suc fuel) p t pi ti star mark
  unfolding glob_loop
  star-Answers h k =
      let e : ltb ti (length t) ≡ true = ground (arith, at.2) in
      let o : one_char p t pi ti ≡ false = one_char-eq p t pi ti x c px at ∙ h in
      let st : is_star p pi ≡ true = is_star-eq p pi x px ∙ k in
      let xs : x ≡ b'*' = ground arith in
      let q = drop (suc pi) p in
      let u = drop ti t in
      let ps : AtChar p pi b'*' = rw xs at px in
      let absorb : (some_suffix (matches q) u || saved_later p t star mark)
          ≡ some_suffix (matches q) u =
        or_absorb _ _ (star-covers p t pi ti mark star i.saved ps) in
      rw (e, o, st, glob_loop, px.1, matches-star x q u xs, absorb, ← later-step q u)
        (ih m (suc pi) ti ti (some pi) (record {
          saved = (0, omega arith, omega arith, omega arith, tt);
          text_bound = i.text_bound;
          mark_bound = i.text_bound;
          fuel_bound = omega (arith, i.fuel_bound, length-drop pi p, length-drop (suc pi) p, px.2);
        }))

  miss-Answers :
      (x == b'?' || x == c) ≡ false → (x == b'*') ≡ false → Answers (suc fuel) p t pi ti star mark
  miss-Answers h k =
      let mc = matches-char x c (drop (suc pi) p) (drop (suc ti) t) (ground arith) in
      retry-Answers fuel p t m pi ti c mark star ih i at (rw (px.1, at.1, mc, h))
        (one_char-eq p t pi ti x c px at ∙ h) (is_star-eq p pi x px ∙ k)

glob_loop-Answers :
    (fuel : ℕ) (p t : Text) (m pi ti mark : ℕ) (star : Option ℕ)
    → NoStar t
    → Inv p t fuel m pi ti star mark
    → Answers fuel p t pi ti star mark
unfolding glob_loop
glob_loop-Answers zero p t m pi ti mark star h i = absurd (omega arith)
glob_loop-Answers (suc fuel) p t m pi ti mark star h i =
    let next : AnswersNext fuel p t =
      λ m' pi' ti' mark' star'. glob_loop-Answers fuel p t m' pi' ti' mark' star' h in
    elim (look t ti) [
      | inl (_, d, g) ↦
          let e : ltb ti (length t) ≡ false = ground arith in
          rw (e, d, saved_later-at_end p t pi ti mark star i.saved d, glob_loop)
            (rw only_stars-eq-matches (ground arith))
      | inr (c, at) ↦ elim (look p pi) [
        | inl done ↦ exhausted-Answers fuel p t m pi ti c mark star next i at done
        | inr (x, px) ↦
            let plain : c ≢ b'*' = (rw at.1 at (NoStar-drop ti t h)).0 in
            elim (Bool-cases (x == b'?' || x == c)) [
              | inl hit ↦ item-Answers fuel p t m pi ti c x mark star next i at px plain hit
              | inr miss ↦ elim (Bool-cases (x == b'*')) [
                | inl a_star ↦
                    star-Answers fuel p t m pi ti c x mark star next i at px plain miss a_star
                | inr other ↦
                    miss-Answers fuel p t m pi ti c x mark star next i at px plain miss other
              ]
            ]
      ]
    ]

-- The run ends within its fuel.
pub glob_run-matches : (p t : Text) → NoStar t → glob_run p t ≡ some (matches p t)
unfolding glob_run
glob_run-matches p t h =
    glob_loop-Answers ((length t + 1) * (length p + 1)) p t (length t) 0 0 0 none h (record {
      saved = tt;
      text_bound = omega arith;
      mark_bound = omega arith;
      fuel_bound = omega arith;
    })
    ∙ ap some (or_absorb (matches p t) false (λ e. ground arith))

-- On a name without `*` the greedy matcher answers what the glob means.
pub glob_match-matches : (p t : Text) → NoStar t → glob_match p t ≡ matches p t
unfolding glob_match
glob_match-matches p t h = ap (λ r. unwrap_or r false) (glob_run-matches p t h)
