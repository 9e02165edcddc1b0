-- ===== src/Triage/Table.antt =====
-- What the table of addresses holds, said by the sights alone.
use pantheon_tools_catalog.Prelude.{
  ◌+◌, ◌%◌, ◌^◌, ◌≡◌, refl, sym, ap, ◌∙◌, subst, Bool, true, false, ◌||◌, Option, none, some, List,
  [], ◌∷◌, ◌++◌, length, length-append, append-nil, append_assoc, retain, any, foldl, ltb, arith,
  Bool-cases, inl, inr, if◌then◌else◌,
}
use pantheon_tools_catalog.Text.{Text, text_eq}
use pantheon_tools_catalog.Text.Order.{text_eq→≡, text_eq_refl}
use pantheon_tools_catalog.Map.{Map, get, insert, get-insert}
use pantheon_tools_catalog.Map.Sorted.{
  IsSorted, insert-IsSorted, length-insert_present, length-insert_absent,
}
use pantheon_tools_catalog.Triage.Acc.{IpStat}
use pantheon_tools_catalog.Triage.Scan.{max_distinct_ips}
use pantheon_tools_catalog.Triage.Sights.{Sight, first_stat, once_more, note}
pub mod Steps

abbrev pub listed : Text → List Text → Bool
listed x = any (λ k. text_eq k x)

-- The addresses that are kept: each new one as long as there are fewer than 4096.
abbrev pub tracked : List Text → List Sight → List Text
tracked kept [] = kept
tracked kept (s ∷ rest) =
    let more = tracked (kept ++ s.ip ∷ []) rest in
    let same = tracked kept rest in
    if listed s.ip kept then same else if ltb (length kept) max_distinct_ips then more else same

-- The sights of one address.
abbrev pub of_ip : Text → List Sight → List Sight
of_ip ip = retain (λ (s : Sight). text_eq s.ip ip)

-- How often an address was seen, modulo 2^64, and where first.
abbrev pub stat_of : List Sight → Option IpStat
stat_of [] = none
stat_of (s ∷ rest) = some (record {
  count = length (s ∷ rest) % 2 ^ 64;
  first_path = s.path;
  first_line = s.line;
  first_excerpt = s.excerpt;
})

abbrev pub expected : List Text → List Sight → Text → Option IpStat
expected kept sights ip = if listed ip kept then stat_of (of_ip ip sights) else none

-- The table of these sights: its keys are in order, and it holds what is expected of each address.
abbrev pub IsTable : List Sight → Map IpStat → Type 0
IsTable sights m = IsSorted m × ((ip : Text) → get ip m ≡ expected (tracked [] sights) sights ip)

-- The state of the loop, after the sights `seen`, of which the addresses `kept` are kept.
pub record Holds (kept : List Text) (seen : List Sight) (m : Map IpStat) : Type 0 where
  pub sorted : IsSorted m
  pub size : length m ≡ length kept
  pub found : (ip : Text) → get ip m ≡ expected kept seen ip
  pub none_lost :
      ltb (length kept) max_distinct_ips ≡ true
      → (ip : Text) → listed ip kept ≡ false
      → of_ip ip seen ≡ []
  pub none_empty :
      (ip : Text)
      → listed ip kept ≡ true
      → (s : Sight) × (rest : List Sight) × (of_ip ip seen ≡ s ∷ rest)

of_ip-append : (ip : Text) (xs ys : List Sight) → of_ip ip (xs ++ ys) ≡ of_ip ip xs ++ of_ip ip ys
of_ip-append ip [] ys = refl
of_ip-append ip (x ∷ xs) ys = ground (arith, of_ip-append ip xs ys)

pub listed-append :
    (ip x : Text) (kept : List Text) → listed ip (kept ++ x ∷ []) ≡ (listed ip kept || text_eq x ip)
listed-append ip x [] = ground arith
listed-append ip x (k ∷ kept) = ground (arith, listed-append ip x kept)

pub of_ip-same :
    (s : Sight) (ip : Text) (seen : List Sight)
    → text_eq s.ip ip ≡ true
    → of_ip ip (seen ++ s ∷ []) ≡ of_ip ip seen ++ s ∷ []
of_ip-same s ip seen h =
    of_ip-append ip seen (s ∷ [])
    ∙ ap (λ l. of_ip ip seen ++ l) (ap (λ b. if b then s ∷ [] else []) h)

pub of_ip-other :
    (s : Sight) (ip : Text) (seen : List Sight)
    → text_eq s.ip ip ≡ false
    → of_ip ip (seen ++ s ∷ []) ≡ of_ip ip seen
of_ip-other s ip seen h =
    of_ip-append ip seen (s ∷ [])
    ∙ ap (λ l. of_ip ip seen ++ l) (ap (λ b. if b then s ∷ [] else []) h)
    ∙ append-nil (of_ip ip seen)

pub expected-listed :
    (kept : List Text) (seen : List Sight) (ip : Text)
    → listed ip kept ≡ true
    → expected kept seen ip ≡ stat_of (of_ip ip seen)
expected-listed kept seen ip h = ap (λ b. if b then stat_of (of_ip ip seen) else none) h

pub expected-unlisted :
    (kept : List Text) (seen : List Sight) (ip : Text)
    → listed ip kept ≡ false
    → expected kept seen ip ≡ none
expected-unlisted kept seen ip h = ap (λ b. if b then stat_of (of_ip ip seen) else none) h

-- A sight of another address changes nothing that is expected.
pub expected-other :
    (kept : List Text) (seen : List Sight) (s : Sight) (ip : Text)
    → text_eq s.ip ip ≡ false
    → expected kept (seen ++ s ∷ []) ip ≡ expected kept seen ip
expected-other kept seen s ip h =
    ap (λ l. if listed ip kept then stat_of l else none) (of_ip-other s ip seen h)

pub listed-same :
    (x ip : Text) (kept : List Text) → text_eq x ip ≡ true → listed ip kept ≡ listed x kept
listed-same x ip kept h = ap (λ y. listed y kept) (sym (text_eq→≡ x ip h))

-- The sights of an address that was seen are some afterwards too.
pub seen_still :
    (seen : List Sight) (s : Sight) (ip : Text)
    → ((a : Sight) × (rest : List Sight) × (of_ip ip seen ≡ a ∷ rest))
    → (a : Sight) × (rest : List Sight) × (of_ip ip (seen ++ s ∷ []) ≡ a ∷ rest)
seen_still seen s ip (a, rest, e) = elim (Bool-cases (text_eq s.ip ip)) [
  | inl same ↦ (a, rest ++ s ∷ [], of_ip-same s ip seen same ∙ ap (λ l. l ++ s ∷ []) e)
  | inr other ↦ (a, rest, of_ip-other s ip seen other ∙ e)
]

pub note-old :
    (m : Map IpStat) (s : Sight) (st : IpStat)
    → get s.ip m ≡ some st
    → note m s ≡ insert s.ip (once_more st) m
unfolding note
note-old m s st e = rw (note, e) refl

pub note-new :
    (m : Map IpStat) (s : Sight)
    → get s.ip m ≡ none
    → note m s ≡ (if ltb (length m) max_distinct_ips then insert s.ip (first_stat s) m else m)
unfolding note
note-new m s e = rw (note, e) refl

-- What is found after an insertion, where it is right of the address itself.
pub found_after :
    (kept kept' : List Text) (seen : List Sight) (m : Map IpStat) (s : Sight) (st : IpStat)
    → ((ip : Text) → get ip m ≡ expected kept seen ip)
    → some st ≡ expected kept' (seen ++ s ∷ []) s.ip
    → ((ip : Text) → text_eq s.ip ip ≡ false → listed ip kept' ≡ listed ip kept)
    → (ip : Text) → get ip (insert s.ip st m) ≡ expected kept' (seen ++ s ∷ []) ip
found_after kept kept' seen m s st h here others ip =
    get-insert s.ip ip st m ∙ elim (Bool-cases (text_eq s.ip ip)) [
      | inl same ↦
          ap (λ b. if b then some st else get ip m) same
          ∙ subst (λ x. some st ≡ expected kept' (seen ++ s ∷ []) x) (text_eq→≡ s.ip ip same) here
      | inr other ↦
          ap (λ b. if b then some st else get ip m) other
          ∙ h ip
          ∙ sym (expected-other kept seen s ip other)
          ∙ ap (λ b. if b then stat_of (of_ip ip (seen ++ s ∷ [])) else none)
              (sym (others ip other))
    ]
