-- ===== src/Masking.antt =====
-- `masked_excerpt` of tools/log-triage/src/main.rs, and of tools/secret-scan/src/main.rs. A span is
-- counted in characters where the source counts bytes: spans begin and end between characters, so
-- that the two name the same places.
pub mod Merged
pub mod Hidden
use pantheon_tools_catalog.Prelude.{
  ℕ, ◌+◌, ◌-◌, max, Bool, ◌&&◌, ◌||◌, Option, none, some, List, [], ◌∷◌, ◌++◌, length, take, drop,
  leb, ltb, ◌==◌, if◌then◌else◌, unwrap_or,
}
use pantheon_tools_catalog.Text.{Text}
use pantheon_tools_catalog.Sort.{sort}

abbrev pub Span : Type 0
Span = ℕ × ℕ

-- the order of pairs, by which `spans.sort()` sorts
unfoldable pub span_le : Span → Span → Bool
span_le (s, e) (t, f) = ltb s t || (s == t && leb e f)

-- The loop that merges, with the last merged span first: a span that begins no later than the last
-- one ends widens it.
unfoldable pub merge_into : Span → List Span → List Span
merge_into last [] = last ∷ []
merge_into (s, e) ((t, f) ∷ rest) =
    let wider = merge_into (s, max e f) rest in
    let apart = (s, e) ∷ merge_into (t, f) rest in if leb t e then wider else apart

unfoldable pub merge : List Span → List Span
unfolding merge_into
merge [] = []
merge (x ∷ xs) = merge_into x xs

abbrev pub ellipsis : ℕ
ellipsis = 8230

-- `&line[s..e]`
unfoldable pub slice : Text → ℕ → ℕ → Text
slice line s e = take (e - s) (drop s line)

-- `first_mark`, set at the first span
unfoldable pub marked : Option ℕ → Text → Option ℕ
marked none out = some (length out)
marked (some m) out = some m

-- The loop over the merged spans, with `out`, `first_mark` and `cursor`, and the rest of the line.
unfoldable pub mask_from : Text → List Span → Text → Option ℕ → ℕ → Text × Option ℕ
unfolding slice marked
mask_from line [] out first_mark cursor = (out ++ drop cursor line, first_mark)
mask_from line ((s, e) ∷ rest) out first_mark cursor =
    let before = out ++ slice line cursor s in
    let shown = take 4 (slice line s e) in
    mask_from line rest (before ++ shown ++ ellipsis ∷ []) (marked first_mark before) e

abbrev pub excerpt_max_chars : ℕ
excerpt_max_chars = 200

-- the cut to `EXCERPT_MAX_CHARS` characters
unfoldable pub window : Text → Option ℕ → Text
window out first_mark =
    let total = length out in
    let begin = unwrap_or first_mark 0 - 60 in
    let start =
      if ltb total (begin + excerpt_max_chars) then total - excerpt_max_chars else begin in
    let front : Text = if ltb 0 start then ellipsis ∷ [] else [] in
    let back : Text = if ltb (start + excerpt_max_chars) total then ellipsis ∷ [] else [] in
    if leb total excerpt_max_chars
    then out
    else (front ++ take excerpt_max_chars (drop start out)) ++ back

unfoldable pub masked_excerpt : Text → List Span → Text
unfolding span_le merge mask_from window
masked_excerpt line spans =
    let (out, first_mark) = mask_from line (merge (sort span_le spans)) [] none 0 in
    window out first_mark
