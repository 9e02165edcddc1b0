-- ===== src/Masking/Merged.antt =====
-- The merged spans of `masked_excerpt`, beside the spans that it is given.
use pantheon_tools_catalog.Prelude.{
  ℕ, ◌≤◌, ◌≡◌, ◌∙◌, max, Bool, true, false, ◌&&◌, List, [], ◌∷◌, arith, leb, ltb, leb-false, any,
  All, Bool-cases, inl, inr,
}
use pantheon_tools_catalog.Sort.{sort}
use pantheon_tools_catalog.Sort.Laws.{IsSorted, sort-IsSorted}
use pantheon_tools_catalog.Sort.Tests.{any-sort, All-sort}
use pantheon_tools_catalog.Masking.{Span, span_le, merge_into, merge}

abbrev pub covers : ℕ → Span → Bool
covers i (s, e) = leb s i && ltb i e

-- The place is in one of the spans.
abbrev pub inside : ℕ → List Span → Bool
inside i = any (covers i)

-- The spans lie one behind the other, the first not before the cursor, and none past the end of
-- the line: no slice of the loop is out of range.
abbrev pub Apart : ℕ → ℕ → List Span → Type 0
Apart cursor n [] = cursor ≤ n
Apart cursor n ((s, e) ∷ rest) = (cursor ≤ s) × (s ≤ e) × Apart e n rest

-- A span of a line of `n` characters.
abbrev pub Fits : ℕ → Span → Type 0
Fits n (s, e) = (s ≤ e) × (e ≤ n)

-- The spans begin one after the other, the first not before `s`.
abbrev ByStart : ℕ → List Span → Type 0
ByStart s [] = Unit {0}
ByStart s ((t, f) ∷ rest) = (s ≤ t) × ByStart t rest

span_le_total : (x y : Span) → span_le x y ≡ false → span_le y x ≡ true
unfolding span_le
span_le_total (s, e) (t, f) h = ground arith

span_le-begins : (x y : Span) → span_le x y ≡ true → x.0 ≤ y.0
unfolding span_le
span_le-begins (s, e) (t, f) h = ground arith

ByStart-sorted : (x : Span) (xs : List Span) → IsSorted span_le (x ∷ xs) → ByStart x.0 xs
ByStart-sorted x [] h = tt
ByStart-sorted x (y ∷ ys) (first, h) = (span_le-begins x y first, ByStart-sorted y ys h)

ByStart-weaken : (s t : ℕ) (xs : List Span) → s ≤ t → ByStart t xs → ByStart s xs
ByStart-weaken s t [] le h = tt
ByStart-weaken s t ((u, g) ∷ xs) le h = (omega arith, h.1)

ByStart-sort : (xs : List Span) → ByStart 0 (sort span_le xs)
ByStart-sort xs = go (sort span_le xs) (sort-IsSorted span_le span_le_total xs)
  where
    go : (ys : List Span) → IsSorted span_le ys → ByStart 0 ys
    go [] h = tt
    go (y ∷ ys) h = (omega arith, ByStart-sorted y ys h)

inside-merge_into :
    (i s e : ℕ) (xs : List Span)
    → ByStart s xs
    → inside i ((s, e) ∷ xs) ≡ true
    → inside i (merge_into (s, e) xs) ≡ true
unfolding merge_into
inside-merge_into i s e [] h c = c
inside-merge_into i s e ((t, f) ∷ xs) (le, h) c = elim (Bool-cases (leb t e)) [
  | inl touches ↦
      rw touches (inside-merge_into i s (max e f) xs (ByStart-weaken s t xs le h) (ground arith))
  | inr apart ↦ rw apart (ground (arith, inside-merge_into i t f xs h))
]

-- A place in a span is in a merged span.
pub inside-merge :
    (i : ℕ) (xs : List Span) → inside i xs ≡ true → inside i (merge (sort span_le xs)) ≡ true
unfolding merge
inside-merge i xs c = go (sort span_le xs) (ByStart-sort xs) (any-sort span_le (covers i) xs ∙ c)
  where
    go : (ys : List Span) → ByStart 0 ys → inside i ys ≡ true → inside i (merge ys) ≡ true
    go [] h d = d
    go ((s, e) ∷ ys) (_, h) d = inside-merge_into i s e ys h d

Apart-weaken : (c d n : ℕ) (xs : List Span) → c ≤ d → Apart d n xs → Apart c n xs
Apart-weaken c d n [] le h = omega arith
Apart-weaken c d n ((s, e) ∷ xs) le (h, k, r) = (omega arith, k, r)

merge_into-Apart :
    (n s e : ℕ) (xs : List Span)
    → Fits n (s, e)
    → ByStart s xs
    → All (Fits n) xs
    → Apart s n (merge_into (s, e) xs)
unfolding merge_into
merge_into-Apart n s e [] fits h a = (omega arith, fits.0, fits.1)
merge_into-Apart n s e ((t, f) ∷ xs) fits (le, h) (b, a) = elim (Bool-cases (leb t e)) [
  | inl touches ↦
      rw touches (
        merge_into-Apart n s (max e f) xs (omega arith, omega arith) (ByStart-weaken s t xs le h) a)
  | inr apart ↦ rw apart (
    omega arith,
    fits.0,
    Apart-weaken e t n _ (omega (arith, leb-false, apart)) (merge_into-Apart n t f xs b h a),
  )
]

pub merge-Apart : (n : ℕ) (xs : List Span) → All (Fits n) xs → Apart 0 n (merge (sort span_le xs))
unfolding merge
merge-Apart n xs a = go (sort span_le xs) (ByStart-sort xs) (All-sort span_le (Fits n) xs a)
  where
    go : (ys : List Span) → ByStart 0 ys → All (Fits n) ys → Apart 0 n (merge ys)
    go [] h b = omega arith
    go ((s, e) ∷ ys) (_, h) (fits, b) =
        Apart-weaken 0 s n _ (omega arith) (merge_into-Apart n s e ys fits h b)

module _ {ℓ} (Q : ℕ → Type ℓ) where
  merge_into-begins :
      (s e : ℕ) (xs : List Span)
      → Q s
      → All (λ x. Q (x.0)) xs
      → All (λ x. Q (x.0)) (merge_into (s, e) xs)
  unfolding merge_into
  merge_into-begins s e [] q a = (q, tt)
  merge_into-begins s e ((t, f) ∷ xs) q (b, a) = elim (Bool-cases (leb t e)) [
    | inl touches ↦ rw touches (merge_into-begins s (max e f) xs q a)
    | inr apart ↦ rw apart (q, merge_into-begins t f xs b a)
  ]

  -- A merged span begins where a span begins.
  pub merge-begins :
      (xs : List Span) → All (λ x. Q (x.0)) xs → All (λ x. Q (x.0)) (merge (sort span_le xs))
  unfolding merge
  merge-begins xs a = go (sort span_le xs) (All-sort span_le (λ x. Q (x.0)) xs a)
    where
      go : (ys : List Span) → All (λ x. Q (x.0)) ys → All (λ x. Q (x.0)) (merge ys)
      go [] b = tt
      go ((s, e) ∷ ys) (q, b) = merge_into-begins s e ys q b
