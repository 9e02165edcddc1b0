-- ===== src/Remediate/VersionGe/Total.antt =====
-- `ver_ge` of package-remediate with its arguments in both orders.
use pantheon_tools_catalog.Prelude.{
  ℕ, zero, suc, max, ◌≡◌, refl, subst, true, false, List, [], ◌∷◌, arith, Ordering, length,
}
use pantheon_tools_catalog.Text.{Text}
use pantheon_tools_catalog.Text.Order.{text_cmp}
use pantheon_tools_catalog.Remediate.VersionGe.{cmp_segment, segment_at, segments, ge_from, ver_ge}

flip : Ordering → Ordering
flip Ordering.lt = Ordering.gt
flip Ordering.eq = Ordering.eq
flip Ordering.gt = Ordering.lt

text_cmp-flip : (a b : Text) → text_cmp a b ≡ flip (text_cmp b a)
unfolding text_cmp flip
text_cmp-flip [] [] = refl
text_cmp-flip [] (y ∷ ys) = refl
text_cmp-flip (x ∷ xs) [] = refl
text_cmp-flip (x ∷ xs) (y ∷ ys) = ground (arith, text_cmp-flip xs ys)

cmp_segment-flip : (a b : Text) → cmp_segment a b ≡ flip (cmp_segment b a)
unfolding cmp_segment flip
cmp_segment-flip a b = ground (arith, text_cmp-flip a b)

ge_from_total :
    (left i : ℕ) (h w : List Text) → ge_from left i h w ≡ false → ge_from left i w h ≡ true
unfolding ge_from flip
ge_from_total zero i h w e = refl
ge_from_total (suc left) i h w e =
    ground
      (arith, ge_from_total left (suc i) h w, cmp_segment-flip (segment_at h i) (segment_at w i))

max_comm : (m n : ℕ) → max m n ≡ max n m
max_comm m n = omega arith

-- Of two versions one is at least the other.
pub ver_ge_total : (a b : Text) → ver_ge a b ≡ false → ver_ge b a ≡ true
unfolding ver_ge
ver_ge_total a b e =
    let h = segments a in
    let w = segments b in
    subst (λ n. ge_from n 0 w h ≡ true) (max_comm (length w) (length h))
      (ge_from_total (max (length w) (length h)) 0 h w e)
