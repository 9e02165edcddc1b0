-- ===== src/Entropy/Lines.antt =====
-- The lines that text-entropy counts are the lines of the standard library.
use pantheon_tools_catalog.Prelude.{
  ℕ, suc, ◌+◌, ◌≡◌, refl, sym, ap, ◌∙◌, Bool, true, false, List, [], ◌∷◌, length, retain, ◌==◌,
  if◌then◌else◌, if-induction, Bool-cases, inl, inr, arith,
}
use pantheon_tools_catalog.Text.{Text, split, push_front, line_pieces, lines}
use pantheon_tools_catalog.Entropy.{unfinished}

abbrev feed : ℕ → Bool
feed c = c == 10

abbrev HasPiece : List Text → Type 0
HasPiece [] = ⊥
HasPiece (p ∷ ps) = Unit {0}

split-HasPiece : (s : Text) → HasPiece (split feed s)
unfolding split
split-HasPiece [] = tt
split-HasPiece (c ∷ s) =
    if-induction HasPiece (feed c) _ _ (λ _. tt) λ _. push_front-HasPiece (split feed s)
  where
    push_front-HasPiece : (ps : List Text) → HasPiece (push_front c ps)
    push_front-HasPiece [] = tt
    push_front-HasPiece (p ∷ ps) = tt

-- An empty first piece is one line if another piece follows it, with or without a character in it.
length-empty_first :
    (ps : List Text) → HasPiece ps → length (line_pieces ([] ∷ ps)) ≡ suc (length (line_pieces ps))
unfolding line_pieces
length-empty_first [] h = absurd h
length-empty_first (p ∷ ps) h = refl

length-push_empty :
    (b : ℕ) (ps : List Text)
    → HasPiece ps
    → length (line_pieces (push_front b ([] ∷ ps))) ≡ length (line_pieces ([] ∷ ps))
unfolding line_pieces
length-push_empty b [] h = absurd h
length-push_empty b (p ∷ ps) h = refl

length-push_push :
    (b c : ℕ) (ps : List Text)
    → length (line_pieces (push_front b (push_front c ps))) ≡ length (line_pieces (push_front c ps))
unfolding line_pieces
length-push_push b c [] = refl
length-push_push b c (p ∷ []) = refl
length-push_push b c (p ∷ q ∷ ps) = refl

-- A character before a text that is not empty makes no line, unless it is a line feed.
length-front :
    (b c : ℕ) (s : Text)
    → length (line_pieces (push_front b (split feed (c ∷ s))))
      ≡ length (line_pieces (split feed (c ∷ s)))
unfolding split
length-front b c s =
    if-induction (λ ps. length (line_pieces (push_front b ps)) ≡ length (line_pieces ps)) (feed c) _
      _ (λ _. length-push_empty b (split feed s) (split-HasPiece s))
      λ _. length-push_push b c (split feed s)

abbrev pub last_line : Text → ℕ
last_line s = if unfinished s then 1 else 0

split-feed : (b : ℕ) (s : Text) → feed b ≡ true → split feed (b ∷ s) ≡ [] ∷ split feed s
unfolding split
split-feed b s h = ground (arith, h)

split-other : (b : ℕ) (s : Text) → feed b ≡ false → split feed (b ∷ s) ≡ push_front b (split feed s)
unfolding split
split-other b s h = ground (arith, h)

last_line-feed : (b : ℕ) (s : Text) → feed b ≡ true → last_line (b ∷ s) ≡ last_line s
unfolding unfinished
last_line-feed b [] h = ground (arith, h)
last_line-feed b (c ∷ s) h = refl

retain-other :
    (b : ℕ) (s : Text) → feed b ≡ false → length (retain feed (b ∷ s)) ≡ length (retain feed s)
retain-other b s h = ground (arith, h)

last_line-other : (b : ℕ) → feed b ≡ false → last_line (b ∷ []) ≡ 1
unfolding unfinished
last_line-other b h = ground (arith, h)

length-pieces :
    (s : Text) → length (line_pieces (split feed s)) ≡ length (retain feed s) + last_line s
unfolding line_pieces split unfinished
length-pieces [] = refl
length-pieces (b ∷ s) = elim (Bool-cases (feed b)) [
  | inl h ↦
      ap (λ ps. length (line_pieces ps)) (split-feed b s h)
      ∙ length-empty_first (split feed s) (split-HasPiece s)
      ∙ ground (arith, length-pieces s, last_line-feed b s h)
  | inr h ↦ ap (λ ps. length (line_pieces ps)) (split-other b s h) ∙ other s h (length-pieces s)
]
  where
    other :
        (s : Text)
        → feed b ≡ false
        → length (line_pieces (split feed s)) ≡ length (retain feed s) + last_line s
        → length (line_pieces (push_front b (split feed s)))
          ≡ length (retain feed (b ∷ s)) + last_line (b ∷ s)
    other [] h e = omega (arith, retain-other b [] h, last_line-other b h)
    other (c ∷ s) h e =
        length-front b c s ∙ e ∙ ap (λ n. n + last_line (c ∷ s)) (sym (retain-other b (c ∷ s) h))

pub length-lines : (s : Text) → length (lines s) ≡ length (retain feed s) + last_line s
unfolding lines
length-lines s = length-pieces s
