-- ===== src/Masking/Hidden.antt =====
-- What `masked_excerpt` shows of a line.
use pantheon_tools_catalog.Prelude.{
  ℕ, zero, suc, ◌+◌, ◌-◌, ◌≤◌, ◌<◌, ◌≡◌, refl, ◌∙◌, unwrap_or, if-induction, leb→le, ap, ap₂, false,
  Option, none, List, [], ◌∷◌, ◌++◌, arith, leb, ltb, length, get_elem?, take, drop, All,
  if◌then◌else◌, length-append, length-take,
}
use pantheon_tools_catalog.Text.{Text}
use pantheon_tools_catalog.Sort.{sort}
use pantheon_tools_catalog.Masking.{
  Span, span_le, merge, slice, ellipsis, mask_from, marked, window, excerpt_max_chars,
  masked_excerpt,
}
use pantheon_tools_catalog.Masking.Merged.{
  inside, Fits, Apart, inside-merge, merge-Apart, merge-begins,
}

-- Two lines have the same character at a place, or both end before it.
abbrev pub Same : Text → Text → ℕ → Type 0
Same l k i = get_elem? l i ≡ get_elem? k i

get_elem?-drop : (a i : ℕ) (l : Text) → get_elem? (drop a l) i ≡ get_elem? l (a + i)
get_elem?-drop zero i l = ap (get_elem? l) (omega arith)
get_elem?-drop (suc a) i [] = refl
get_elem?-drop (suc a) i (x ∷ l) = rw (add_suc a i) (get_elem?-drop a i l)
  where
    add_suc : (a i : ℕ) → suc a + i ≡ suc (a + i)
    add_suc a i = omega arith

-- Prefixes of prefixes agree where the lists do.
take-take_ext :
    (k m : ℕ) (l l' : Text)
    → ((i : ℕ) → i < k → i < m → Same l l' i)
    → take k (take m l) ≡ take k (take m l')
take-take_ext zero m l l' h = refl
take-take_ext (suc k) zero l l' h = refl
take-take_ext (suc k) (suc m) [] [] h = refl
take-take_ext (suc k) (suc m) [] (y ∷ l') h =
    absurd (let e = h 0 (omega arith) (omega arith) in ground arith)
take-take_ext (suc k) (suc m) (x ∷ l) [] h =
    absurd (let e = h 0 (omega arith) (omega arith) in ground arith)
take-take_ext (suc k) (suc m) (x ∷ l) (y ∷ l') h =
    let e = h 0 (omega arith) (omega arith) in
    ap₂ (λ a r. a ∷ r) (ground arith)
      (take-take_ext k m l l' (λ i lt lt'. h (suc i) (omega arith) (omega arith)))

take_ext : (m : ℕ) (l l' : Text) → ((i : ℕ) → i < m → Same l l' i) → take m l ≡ take m l'
take_ext zero l l' h = refl
take_ext (suc m) [] [] h = refl
take_ext (suc m) [] (y ∷ l') h = absurd (let e = h 0 (omega arith) in ground arith)
take_ext (suc m) (x ∷ l) [] h = absurd (let e = h 0 (omega arith) in ground arith)
take_ext (suc m) (x ∷ l) (y ∷ l') h =
    let e = h 0 (omega arith) in
    ap₂ (λ a r. a ∷ r) (ground arith) (take_ext m l l' (λ i lt. h (suc i) (omega arith)))

list_ext : (l l' : Text) → ((i : ℕ) → Same l l' i) → l ≡ l'
list_ext [] [] h = refl
list_ext [] (y ∷ l') h = absurd (let e = h 0 in ground arith)
list_ext (x ∷ l) [] h = absurd (let e = h 0 in ground arith)
list_ext (x ∷ l) (y ∷ l') h =
    let e = h 0 in ap₂ (λ a r. a ∷ r) (ground arith) (list_ext l l' (λ i. h (suc i)))

module _ (l l' : Text) where
  Same-drop : (a i : ℕ) → Same l l' (a + i) → Same (drop a l) (drop a l') i
  Same-drop a i h = rw (get_elem?-drop a i l, get_elem?-drop a i l') h

  slice-Same : (a b : ℕ) → ((i : ℕ) → a ≤ i → i < b → Same l l' i) → slice l a b ≡ slice l' a b
  unfolding slice
  slice-Same a b h =
      take_ext (b - a) _ _ (λ i lt. Same-drop a i (h (a + i) (omega arith) (omega arith)))

  shown-Same :
      (a b : ℕ)
      → ((i : ℕ) → a ≤ i → i < a + 4 → Same l l' i)
      → take 4 (slice l a b) ≡ take 4 (slice l' a b)
  unfolding slice
  shown-Same a b h =
      take-take_ext 4 (b - a) _ _ (λ i lt _. Same-drop a i (h (a + i) (omega arith) (omega arith)))

  inside-before : (i c n : ℕ) (spans : List Span) → i < c → Apart c n spans → inside i spans ≡ false
  inside-before i c n [] lt h = refl
  inside-before i c n ((s, e) ∷ spans) lt (h, k, r) = ground (arith, inside-before i e n spans)

  -- Places from the cursor on are shown where no span covers them, and in the first four
  -- characters of a span.
  abbrev Agree : ℕ → List Span → Type 0
  Agree cursor spans = (i : ℕ) → cursor ≤ i → inside i spans ≡ false → Same l l' i

  abbrev AgreeAtStart : ℕ → Type 0
  AgreeAtStart s = (i : ℕ) → s ≤ i → i < s + 4 → Same l l' i

  mask_from-Same :
      (n : ℕ) (spans : List Span) (out : Text) (mark : Option ℕ) (cursor : ℕ)
      → Apart cursor n spans
      → Agree cursor spans
      → All (λ x. AgreeAtStart (x.0)) spans
      → mask_from l spans out mark cursor ≡ mask_from l' spans out mark cursor
  unfolding mask_from
  mask_from-Same n [] out mark cursor apart agree starts =
      ap (λ t. (out ++ t, mark))
        (list_ext (drop cursor l) (drop cursor l')
          (λ i. Same-drop cursor i (agree (cursor + i) (omega arith) refl)))
  mask_from-Same n ((s, e) ∷ spans) out mark cursor (h, k, r) agree (here, starts) =
      let gap =
        slice-Same cursor s (λ i le lt. agree i le (ground (arith, inside-before i e n spans))) in
      let next : Text → Text → Text × Option ℕ =
        λ a b. mask_from l spans ((out ++ a) ++ b ++ ellipsis ∷ []) (marked mark (out ++ a)) e in
      ap₂ next gap (shown-Same s e here)
      ∙ mask_from-Same n spans _ _ e r (λ i le out_. agree i (omega arith) (ground arith)) starts

length-window : (out : Text) (mark : Option ℕ) → length (window out mark) ≤ excerpt_max_chars + 2
unfolding window
length-window out mark =
    let total = length out in
    let begin = unwrap_or mark 0 - 60 in
    let start =
      if ltb total (begin + excerpt_max_chars) then total - excerpt_max_chars else begin in
    let front : Text = if ltb 0 start then ellipsis ∷ [] else [] in
    let back : Text = if ltb (start + excerpt_max_chars) total then ellipsis ∷ [] else [] in
    let mid = take excerpt_max_chars (drop start out) in
    let one : length front ≤ 1 = ground arith in
    let one' : length back ≤ 1 = ground arith in
    if-induction (λ (t : Text). length t ≤ excerpt_max_chars + 2) (leb total excerpt_max_chars) out
      ((front ++ mid) ++ back) (λ short. omega (arith, leb→le, short))
      (λ _. omega (
        arith,
        length-append (front ++ mid) back,
        length-append front mid,
        length-take excerpt_max_chars (drop start out),
      ))

-- Where each span fits in the line, nothing of the excerpt depends on what a span hides: two lines
-- of one length that agree at all places outside the spans, and at the first four places of each
-- span, have the same excerpt.
pub masked_excerpt-hides :
    (l l' : Text) (spans : List Span)
    → All (Fits (length l)) spans
    → ((i : ℕ) → inside i spans ≡ false → Same l l' i)
    → All (λ x. AgreeAtStart l l' (x.0)) spans
    → masked_excerpt l spans ≡ masked_excerpt l' spans
unfolding masked_excerpt
masked_excerpt-hides l l' spans fits agree starts =
    ap (λ m. window (m.0) (m.1))
      (mask_from-Same l l' (length l) (merge (sort span_le spans)) [] none 0
        (merge-Apart (length l) spans fits) (λ i _ out_. agree i (outside i out_))
        (merge-begins (AgreeAtStart l l') spans starts))
  where
    outside : (i : ℕ) → inside i (merge (sort span_le spans)) ≡ false → inside i spans ≡ false
    outside i out_ = ground (arith, inside-merge i spans)

-- No excerpt is longer than 200 characters and two marks of a cut.
pub length-masked_excerpt :
    (l : Text) (spans : List Span) → length (masked_excerpt l spans) ≤ excerpt_max_chars + 2
unfolding masked_excerpt
length-masked_excerpt l spans = go (mask_from l (merge (sort span_le spans)) [] none 0)
  where
    go : (m : Text × Option ℕ) → length (window (m.0) (m.1)) ≤ excerpt_max_chars + 2
    go m = length-window (m.0) (m.1)
