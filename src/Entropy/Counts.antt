-- ===== src/Entropy/Counts.antt =====
-- What the counts of text-entropy are: the histogram, the lines and the printable bytes.
use pantheon_tools_catalog.Prelude.{
  ltb, ℕ, zero, suc, ◌+◌, ◌<◌, ◌≡◌, refl, sym, ap, Bool, List, [], ◌∷◌, length, retain, subst, ◌==◌,
  if◌then◌else◌, arith, All,
}
use pantheon_tools_catalog.Text.{split, line_pieces, lines}
use pantheon_tools_catalog.Entropy.Lines.{length-lines}
use pantheon_tools_catalog.Entropy.{
  Tally, Output, Encoding, increment, is_printable, visit, tally, zeros, before_bytes, count_lines,
  statistics,
}

-- The entry of a list of counts.
abbrev pub at : ℕ → List ℕ → ℕ
at c [] = 0
at zero (n ∷ ns) = n
at (suc c) (n ∷ ns) = at c ns

abbrev pub sum : List ℕ → ℕ
sum [] = 0
sum (n ∷ ns) = n + sum ns

-- How many entries satisfy a test.
abbrev pub count : (ℕ → Bool) → List ℕ → ℕ
count p xs = length (retain p xs)

sum-increment : (b : ℕ) (ns : List ℕ) → b < length ns → sum (increment b ns) ≡ sum ns + 1
unfolding increment
sum-increment b [] h = absurd (omega arith)
sum-increment zero (n ∷ ns) h = omega arith
sum-increment (suc b) (n ∷ ns) h = omega (arith, sum-increment b ns (omega arith))

length-increment : (b : ℕ) (ns : List ℕ) → length (increment b ns) ≡ length ns
unfolding increment
length-increment b [] = refl
length-increment zero (n ∷ ns) = refl
length-increment (suc b) (n ∷ ns) = ap suc (length-increment b ns)

at-increment :
    (b c : ℕ) (ns : List ℕ)
    → b < length ns
    → at c (increment b ns) ≡ at c ns + (if b == c then 1 else 0)
unfolding increment
at-increment b c [] h = absurd (omega arith)
at-increment zero zero (n ∷ ns) h = refl
at-increment zero (suc c) (n ∷ ns) h = ground arith
at-increment (suc b) zero (n ∷ ns) h = ground arith
at-increment (suc b) (suc c) (n ∷ ns) h = ground (arith, at-increment b c ns (omega arith))

count-cons :
    (p : ℕ → Bool) (x : ℕ) (xs : List ℕ) → count p (x ∷ xs) ≡ count p xs + (if p x then 1 else 0)
count-cons p x xs = ground arith

-- What the loop adds to each count.
abbrev Adds : List ℕ → Tally → Tally → Type 0
Adds bytes t t' =
    (sum t'.freq ≡ sum t.freq + length bytes)
    × ((c : ℕ) → at c t'.freq ≡ at c t.freq + count (λ b. b == c) bytes)
    × (t'.printable ≡ t.printable + count is_printable bytes)
    × (t'.lines ≡ t.lines + count (λ b. b == 10) bytes)

tally-Adds :
    (bytes : List ℕ) (t : Tally) → All (λ b. b < length t.freq) bytes → Adds bytes t (tally bytes t)
unfolding tally visit
tally-Adds [] t h = (omega arith, λ c. omega arith, omega arith, omega arith)
tally-Adds (b ∷ bytes) t (small, h) =
    let (all, each, printed, fed) =
      tally-Adds bytes (visit b t)
        (subst (λ n. All (λ c. c < n) bytes) (sym (length-increment b t.freq)) h) in
    (
      omega (arith, all, sum-increment b t.freq small),
      λ c. omega (arith, each c, at-increment b c t.freq small, count-cons (λ x. x == c) b bytes),
      ground (arith, printed, count-cons is_printable b bytes),
      ground (arith, fed, count-cons (λ x. x == 10) b bytes),
    )

zeros-sum : (n : ℕ) → sum (zeros n) ≡ 0
unfolding zeros
zeros-sum zero = refl
zeros-sum (suc n) = omega (arith, zeros-sum n)

at-zeros : (c n : ℕ) → at c (zeros n) ≡ 0
unfolding zeros
at-zeros c zero = refl
at-zeros zero (suc n) = refl
at-zeros (suc c) (suc n) = at-zeros c n

count-zeros : (n : ℕ) → count (λ m. ltb 0 m) (zeros n) ≡ 0
unfolding zeros
count-zeros zero = refl
count-zeros (suc n) = count-zeros n

length-zeros : (n : ℕ) → length (zeros n) ≡ n
unfolding zeros
length-zeros zero = refl
length-zeros (suc n) = ap suc (length-zeros n)

-- What is reported of some bytes: their number, how many are printable, as many lines as the
-- standard library reads in them, and how many entries of the histogram are not 0.
abbrev pub Counted : List ℕ → Output → Type 0
Counted bytes out =
    (out.bytes ≡ length bytes)
    × (out.printable ≡ count is_printable bytes)
    × (out.lines ≡ length (lines bytes))
    × (out.distinct_bytes ≡ count (λ n. ltb 0 n) (tally bytes before_bytes).freq)

abbrev pub IsHistogram : List ℕ → List ℕ → Type 0
IsHistogram bytes freq =
    (sum freq ≡ length bytes) × ((c : ℕ) → at c freq ≡ count (λ b. b == c) bytes)

tally-zeros :
    (bytes : List ℕ)
    → All (λ b. b < 256) bytes
    → IsHistogram bytes (tally bytes before_bytes).freq
      × ((tally bytes before_bytes).printable ≡ count is_printable bytes)
      × ((tally bytes before_bytes).lines ≡ count (λ b. b == 10) bytes)
unfolding before_bytes
tally-zeros bytes h =
    let (all, each, printed, fed) =
      tally-Adds bytes before_bytes
        (subst (λ n. All (λ b. b < n) bytes) (sym (length-zeros 256)) h) in
    (
      (omega (arith, all, zeros-sum 256), λ c. omega (arith, each c, at-zeros c 256)),
      omega (arith, printed),
      omega (arith, fed),
    )

-- The lines counted in the loop, with the last one that no line feed ends.
count_lines-lines :
    (bytes : List ℕ) → All (λ b. b < 256) bytes → count_lines bytes ≡ length (lines bytes)
unfolding count_lines
count_lines-lines bytes h = ground (arith, tally-zeros bytes h, length-lines bytes)

distinct-nil : count (λ n. ltb 0 n) (tally [] before_bytes).freq ≡ 0
unfolding tally before_bytes
distinct-nil = count-zeros 256

-- For each list of bytes, numbers below 256: the entry of the histogram for a value is the number of
-- bytes that have it, the entries add up to the number of bytes, and of the bytes the number, the
-- number of printable ones, the number of values that occur and the number of lines are reported, a
-- line being what `str::lines` of the standard library gives.
pub statistics-Counted :
    (enc : Encoding) (bytes : List ℕ)
    → All (λ b. b < 256) bytes
    → IsHistogram bytes (tally bytes before_bytes).freq × Counted bytes (statistics enc bytes)
unfolding statistics lines line_pieces split
statistics-Counted enc [] h = ((tally-zeros [] h).0, (refl, refl, refl, sym distinct-nil))
statistics-Counted enc (b ∷ bytes) h =
    let (histogram, printed, fed) = tally-zeros (b ∷ bytes) h in
    (histogram, ground (arith, printed, count_lines-lines (b ∷ bytes) h))
