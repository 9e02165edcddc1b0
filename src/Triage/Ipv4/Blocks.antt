-- ===== src/Triage/Ipv4/Blocks.antt =====
-- The addresses that `is_public_ipv4` accepts, beside the reserved blocks of the address space.
use pantheon_tools_catalog.Prelude.{
  ℕ, ◌+◌, ◌*◌, ◌≤◌, ◌<◌, ◌≡◌, ◌∙◌, ap, ◌⊎◌, inl, inr, ◌↔◌, refl, true, some, List, [], ◌∷◌, map,
  arith, ◌==◌, Option-cases,
}
use pantheon_tools_catalog.Text.{Text, split}
use pantheon_tools_catalog.Triage.Ipv4.{octet, octets, is_routable, is_public_ipv4}

-- The address as a number of 32 bits.
abbrev pub address : ℕ → ℕ → ℕ → ℕ → ℕ
address a b c d = ((a * 256 + b) * 256 + c) * 256 + d

abbrev pub Outside : ℕ → ℕ → ℕ → Type 0
Outside first size n = (n < first) ⊎ (first + size ≤ n)

-- Outside of 0.0.0.0/8, 10.0.0.0/8, 127.0.0.0/8, 169.254.0.0/16, 172.16.0.0/12 and 192.168.0.0/16.
abbrev pub Routable : ℕ → Type 0
Routable n =
    Outside 0 (256 * 65536) n
    × Outside (address 10 0 0 0) (256 * 65536) n
    × Outside (address 127 0 0 0) (256 * 65536) n
    × Outside (address 169 254 0 0) 65536 n
    × Outside (address 172 16 0 0) (16 * 65536) n
    × Outside (address 192 168 0 0) 65536 n

is_routable_iff :
    (a b c d : ℕ)
    → a < 256
    → b < 256
    → c < 256
    → d < 256
    → (is_routable (a ∷ b ∷ c ∷ d ∷ []) ≡ true) ↔ Routable (address a b c d)
unfolding is_routable
is_routable_iff a b c d ha hb hc hd = ground arith

octet-lt : (p : Text) (v : ℕ) → octet p ≡ some v → v < 256
unfolding octet
octet-lt p v h = ground arith

-- The octets that the parts of a text give, one after the other.
abbrev pub AreOctets : List Text → ℕ → ℕ → ℕ → ℕ → Type 0
AreOctets parts a b c d = map octet parts ≡ some a ∷ some b ∷ some c ∷ some d ∷ []

octets-AreOctets :
    (parts : List Text) (a b c d : ℕ)
    → (octets [] parts ≡ some (a ∷ b ∷ c ∷ d ∷ [])) ↔ AreOctets parts a b c d
unfolding octets
octets-AreOctets [] a b c d = ground arith
octets-AreOctets (p ∷ []) a b c d = ground arith
octets-AreOctets (p ∷ q ∷ []) a b c d = ground arith
octets-AreOctets (p ∷ q ∷ r ∷ []) a b c d = ground arith
octets-AreOctets (p ∷ q ∷ r ∷ s ∷ []) a b c d = ground arith
octets-AreOctets (p ∷ q ∷ r ∷ s ∷ t ∷ rest) a b c d = ground arith

is_routable-four :
    (o : List ℕ)
    → is_routable o ≡ true
    → (a : ℕ) × (b : ℕ) × (c : ℕ) × (d : ℕ) × (o ≡ a ∷ b ∷ c ∷ d ∷ [])
unfolding is_routable
is_routable-four [] h = absurd (ground arith)
is_routable-four (a ∷ []) h = absurd (ground arith)
is_routable-four (a ∷ b ∷ []) h = absurd (ground arith)
is_routable-four (a ∷ b ∷ c ∷ []) h = absurd (ground arith)
is_routable-four (a ∷ b ∷ c ∷ d ∷ []) h = (a, b, c, d, refl)
is_routable-four (a ∷ b ∷ c ∷ d ∷ e ∷ rest) h = absurd (ground arith)

AreOctets-lt :
    (parts : List Text) (a b c d : ℕ)
    → AreOctets parts a b c d
    → (a < 256) × (b < 256) × (c < 256) × (d < 256)
AreOctets-lt [] a b c d h = absurd (ground arith)
AreOctets-lt (p ∷ []) a b c d h = absurd (ground arith)
AreOctets-lt (p ∷ q ∷ []) a b c d h = absurd (ground arith)
AreOctets-lt (p ∷ q ∷ r ∷ []) a b c d h = absurd (ground arith)
AreOctets-lt (p ∷ q ∷ r ∷ s ∷ []) a b c d h =
    ground (arith, octet-lt p a, octet-lt q b, octet-lt r c, octet-lt s d)
AreOctets-lt (p ∷ q ∷ r ∷ s ∷ t ∷ rest) a b c d h = absurd (ground arith)

abbrev pub parts_of : Text → List Text
parts_of = split (λ c. c == b'.')

-- A text is a public address exactly when its parts between dots are four octets, and the address
-- that they make lies outside of the blocks 0.0.0.0/8, 10.0.0.0/8, 127.0.0.0/8, 169.254.0.0/16,
-- 172.16.0.0/12 and 192.168.0.0/16.
pub is_public_ipv4-Routable :
    (s : Text)
    → (is_public_ipv4 s ≡ true) ↔ (
        (a : ℕ) × (b : ℕ) × (c : ℕ) × (d : ℕ) × AreOctets (parts_of s) a b c d
        × Routable (address a b c d))
unfolding is_public_ipv4
is_public_ipv4-Routable s = (there, back)
  where
    there :
        is_public_ipv4 s ≡ true
        → (a : ℕ) × (b : ℕ) × (c : ℕ) × (d : ℕ) × AreOctets (parts_of s) a b c d
          × Routable (address a b c d)
    there h = elim (Option-cases (octets [] (parts_of s))) [
      | inl bad ↦ absurd (ground arith)
      | inr (o, e) ↦
          let good : is_routable o ≡ true = ground arith in
          let (a, b, c, d, four) = is_routable-four o good in
          let are : AreOctets (parts_of s) a b c d =
            (octets-AreOctets (parts_of s) a b c d).0 (e ∙ ap some four) in
          let (ha, hb, hc, hd) = AreOctets-lt (parts_of s) a b c d are in
          (a, b, c, d, are, (is_routable_iff a b c d ha hb hc hd).0 (rw four at good))
    ]

    back :
        (a : ℕ) × (b : ℕ) × (c : ℕ) × (d : ℕ) × AreOctets (parts_of s) a b c d
          × Routable (address a b c d)
        → is_public_ipv4 s ≡ true
    back (a, b, c, d, are, r) =
        let (ha, hb, hc, hd) = AreOctets-lt (parts_of s) a b c d are in
        rw (is_public_ipv4, (octets-AreOctets (parts_of s) a b c d).1 are)
          ((is_routable_iff a b c d ha hb hc hd).1 r)
