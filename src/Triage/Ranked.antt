-- ===== src/Triage/Ranked.antt =====
-- The order in which log-triage reports the addresses.
use mathlib.Core.List.{Perm}
use pantheon_tools_catalog.Prelude.{
  ◌<◌, ◌≡◌, ◌≢◌, ◌⊎◌, inl, inr, true, false, List, [], ◌∷◌, foldl, arith, compare-cases, Ordering,
}
use pantheon_tools_catalog.Text.{Text}
use pantheon_tools_catalog.Text.Order.{text_cmp, text_cmp_gt}
use pantheon_tools_catalog.Map.{Map}
use pantheon_tools_catalog.Sort.{sort}
use pantheon_tools_catalog.Sort.Laws.{Starts, sort-perm, sort-IsSorted}
use pantheon_tools_catalog.Sort.Laws as Laws
use pantheon_tools_catalog.Triage.Acc.{IpStat}
use pantheon_tools_catalog.Triage.Sights.{Sight, note}
use pantheon_tools_catalog.Triage.Table.{IsTable}
use pantheon_tools_catalog.Triage.Table.Steps.{notes-IsTable}
use pantheon_tools_catalog.Triage.Report.{ip_le}

-- More often seen, or as often and not later as a text.
abbrev pub NotBehind : Text × IpStat → Text × IpStat → Type 0
NotBehind (ip, st) (ip', st') =
    (st'.count < st.count) ⊎ ((st'.count ≡ st.count) × (text_cmp ip ip' ≢ Ordering.gt))

abbrev pub FirstBehind : Text × IpStat → List (Text × IpStat) → Type 0
FirstBehind a [] = Unit {0}
FirstBehind a (b ∷ bs) = NotBehind a b

abbrev pub Descending : List (Text × IpStat) → Type 0
Descending [] = Unit {0}
Descending (a ∷ as_) = FirstBehind a as_ × Descending as_

-- The addresses of these sights with their counts and their first places, most frequent first.
abbrev pub AreAddresses : List Sight → List (Text × IpStat) → Type 0
AreAddresses sights addresses =
    (table : Map IpStat) × IsTable sights table × Perm addresses table × Descending addresses

ip_le-NotBehind : (a b : Text × IpStat) → ip_le a b ≡ true → NotBehind a b
unfolding ip_le
ip_le-NotBehind (ip, st) (ip', st') h = elim (compare-cases st'.count st.count) [
  | inl (_, less) ↦ inl less
  | inr (inl (_, same)) ↦ inr (same, λ later. ground (arith, h, same, later))
  | inr (inr (_, more)) ↦ absurd (ground (arith, h, more))
]

ip_le-total : (a b : Text × IpStat) → ip_le a b ≡ false → ip_le b a ≡ true
unfolding ip_le
ip_le-total (ip, st) (ip', st') h = ground (arith, h, text_cmp_gt ip ip')

sorted-Descending : (xs : List (Text × IpStat)) → Laws.IsSorted ip_le xs → Descending xs
sorted-Descending [] h = tt
sorted-Descending (a ∷ []) h = (tt, tt)
sorted-Descending (a ∷ b ∷ xs) (s, h) = (ip_le-NotBehind a b s, sorted-Descending (b ∷ xs) h)

pub sort-AreAddresses :
    (sights : List Sight) → AreAddresses sights (sort ip_le (foldl note [] sights))
sort-AreAddresses sights =
    let table = foldl note [] sights in
    (
      table,
      notes-IsTable sights,
      sort-perm ip_le table,
      sorted-Descending (sort ip_le table) (sort-IsSorted ip_le ip_le-total table),
    )
