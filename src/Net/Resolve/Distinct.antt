-- ===== src/Net/Resolve/Distinct.antt =====
-- The addresses that dns-resolve reports: in order, each once.
use pantheon_tools_catalog.Prelude.{
  ◌≡◌, ◌↔◌, ◌∙◌, subst, Option, some, List, [], ◌∷◌, In, inl, inr, Bool-cases,
}
use pantheon_tools_catalog.Text.{Text, text_eq}
use pantheon_tools_catalog.Text.Order.{text_eq→≡, text_le, text_le-total, text_le-Before, Before}
use pantheon_tools_catalog.Sort.{sort}
use pantheon_tools_catalog.Sort.Laws.{Starts, IsSorted, sort-IsSorted}
use pantheon_tools_catalog.Sort.Members.{In-sort}
use pantheon_tools_catalog.Net.Resolve.{dedup_after, dedup, resolve}

abbrev pub Above : Text → List Text → Type 0
Above x [] = Unit {0}
Above x (y ∷ ys) = Before x y

-- Each text comes before the next one.
abbrev pub Ascending : List Text → Type 0
Ascending [] = Unit {0}
Ascending (x ∷ xs) = Above x xs × Ascending xs

dedup_after-Ascending :
    (x : Text) (ys : List Text)
    → Starts text_le x ys
    → IsSorted text_le ys
    → Ascending (x ∷ dedup_after x ys)
unfolding dedup_after
dedup_after-Ascending x [] s h = (tt, tt)
dedup_after-Ascending x (y ∷ ys) s (t, h) = elim (Bool-cases (text_eq y x)) [
  | inl same ↦
      rw same
        (dedup_after-Ascending x ys (subst (λ z. Starts text_le z ys) (text_eq→≡ y x same) t) h)
  | inr differ ↦ rw differ (text_le-Before x y s differ, dedup_after-Ascending y ys t h)
]

dedup-Ascending : (xs : List Text) → IsSorted text_le xs → Ascending (dedup xs)
unfolding dedup
dedup-Ascending [] h = tt
dedup-Ascending (x ∷ xs) (s, h) = dedup_after-Ascending x xs s h

In-dedup_after : (z x : Text) (ys : List Text) → In z (x ∷ dedup_after x ys) ↔ In z (x ∷ ys)
unfolding dedup_after
In-dedup_after z x [] = (λ m. m, λ m. m)
In-dedup_after z x (y ∷ ys) = elim (Bool-cases (text_eq y x)) [
  | inl same ↦
      let (to, from) = In-dedup_after z x ys in
      rw same (
        λ m. elim (to m) [ inl e ↦ inl e | inr k ↦ inr (inr k) ],
        elim [
          | inl e ↦ inl e
          | inr (inl e) ↦ inl (e ∙ text_eq→≡ y x same)
          | inr (inr k) ↦ from (inr k)
        ],
      )
  | inr differ ↦
      let (to, from) = In-dedup_after z y ys in
      rw differ
        (elim [ inl e ↦ inl e | inr m ↦ inr (to m) ], elim [ inl e ↦ inl e | inr m ↦ inr (from m) ])
]

In-dedup : (z : Text) (xs : List Text) → In z (dedup xs) ↔ In z xs
unfolding dedup
In-dedup z [] = (λ m. m, λ m. m)
In-dedup z (x ∷ xs) = In-dedup_after z x xs

abbrev pub SameDistinct : List Text → List Text → Type 0
SameDistinct it addrs = Ascending addrs × ((z : Text) → In z addrs ↔ In z it)

-- For each resolver, name and list of addresses that the resolver gives for the name: the addresses
-- reported are in strictly ascending order, so none is there twice, and they are the addresses of
-- that list and no others.
pub resolve-Distinct :
    (lookup : Text → Option (List Text)) (name : Text) (it : List Text)
    → lookup name ≡ some it
    → SameDistinct it (resolve lookup name).addrs
unfolding resolve
resolve-Distinct lookup name it e =
    rw (resolve, e)
      (
        dedup-Ascending (sort text_le it) (sort-IsSorted text_le text_le-total it),
        λ z.
            let (to, from) = In-dedup z (sort text_le it) in
            let (back, into) = In-sort text_le z it in (λ m. back (to m), λ m. from (into m)),
      )
