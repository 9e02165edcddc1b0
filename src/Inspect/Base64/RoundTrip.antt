-- ===== src/Inspect/Base64/RoundTrip.antt =====
-- A decoder of base64 by the ranges of RFC 4648, beside `b64_encode` of fs-read.
use pantheon_tools_catalog.Prelude.{
  ℕ, zero, suc, ◌+◌, ◌-◌, ◌*◌, ◌/◌, ◌%◌, ◌<◌, ◌≡◌, refl, Bool, true, false, ◌&&◌, Option, none,
  some, List, [], ◌∷◌, ◌++◌, leb, ◌==◌, if◌then◌else◌, arith, All, compare-cases, inl, inr,
}
use pantheon_tools_catalog.Text.{Text}
use pantheon_tools_catalog.Inspect.Base64.{letter, word, b64_encode}

-- The value of a letter, by ranges.
unfoldable pub value : ℕ → Option ℕ
value c =
    if leb b'A' c && leb c b'Z'
    then some (c - b'A')
    else if leb b'a' c && leb c b'z'
    then some (c - b'a' + 26)
    else if leb b'0' c && leb c b'9'
    then some (c - b'0' + 52)
    else if c == b'+'
    then some 62
    else if c == b'/'
    then some 63
    else none

-- The bytes of four letters, `=` being padding.
unfoldable pub group : ℕ → ℕ → ℕ → ℕ → Option (List ℕ)
group c0 c1 c2 c3 = elim (value c0) [
  | none ↦ none
  | some v0 ↦ elim (value c1) [
    | none ↦ none
    | some v1 ↦ elim (value c2) [
      | none ↦ if c2 == b'=' && c3 == b'=' then some ((v0 * 4 + v1 / 16) ∷ []) else none
      | some v2 ↦ elim (value c3) [
        | none ↦
            if c3 == b'=' then some ((v0 * 4 + v1 / 16) ∷ (v1 % 16 * 16 + v2 / 4) ∷ []) else none
        | some v3 ↦ some ((v0 * 4 + v1 / 16) ∷ (v1 % 16 * 16 + v2 / 4) ∷ (v2 % 4 * 64 + v3) ∷ [])
      ]
    ]
  ]
]

unfoldable pub b64_decode : Text → Option (List ℕ)
b64_decode [] = some []
b64_decode (c0 ∷ c1 ∷ c2 ∷ c3 ∷ rest) = elim (group c0 c1 c2 c3) [
  | none ↦ none
  | some bs ↦ elim (b64_decode rest) [ none ↦ none | some more ↦ some (bs ++ more) ]
]
b64_decode _ = none

is_value : ℕ → Option ℕ → Bool
is_value i none = false
is_value i (some v) = v == i

all_letters : ℕ → Bool
all_letters zero = true
all_letters (suc n) = is_value n (value (letter n)) && all_letters n

all_letters-64 : all_letters 64 ≡ true
unfolding all_letters is_value value letter
all_letters-64 = refl

is_value-eq : (i : ℕ) (o : Option ℕ) → is_value i o ≡ true → o ≡ some i
unfolding is_value
is_value-eq i none h = ground arith
is_value-eq i (some v) h = ground arith

below : (n i : ℕ) → all_letters n ≡ true → i < n → value (letter i) ≡ some i
unfolding all_letters
below zero i h l = absurd (omega arith)
below (suc n) i h l = elim (compare-cases i n) [
  | inl (_, less) ↦ below n i (ground arith) less
  | inr (inl (_, e)) ↦ rw e (is_value-eq n (value (letter n)) (ground arith))
  | inr (inr (_, more)) ↦ absurd (omega arith)
]

value-letter : (i : ℕ) → i < 64 → value (letter i) ≡ some i
value-letter i l = below 64 i all_letters-64 l

value-padding : value b'=' ≡ none
unfolding value
value-padding = refl

module _ (b0 b1 b2 : ℕ) (h0 : b0 < 256) (h1 : b1 < 256) (h2 : b2 < 256) where
  first_byte : word b0 b1 b2 / 262144 % 64 * 4 + word b0 b1 b2 / 4096 % 64 / 16 ≡ b0
  first_byte = omega arith

  second_byte : word b0 b1 b2 / 4096 % 64 % 16 * 16 + word b0 b1 b2 / 64 % 64 / 4 ≡ b1
  second_byte = omega arith

  third_byte : word b0 b1 b2 / 64 % 64 % 4 * 64 + word b0 b1 b2 % 64 ≡ b2
  third_byte = omega arith

value-sextet : (n d : ℕ) → value (letter (n / d % 64)) ≡ some (n / d % 64)
value-sextet n d = value-letter (n / d % 64) (omega arith)

group-full :
    (b0 b1 b2 : ℕ)
    → b0 < 256
    → b1 < 256
    → b2 < 256
    → let n = word b0 b1 b2 in
      group
        (letter (n / 262144 % 64))
        (letter (n / 4096 % 64))
        (letter (n / 64 % 64))
        (letter (n % 64))
      ≡ some (b0 ∷ b1 ∷ b2 ∷ [])
unfolding group
group-full b0 b1 b2 h0 h1 h2 =
    let n = word b0 b1 b2 in
    rw
      (
        group,
        value-sextet n 262144,
        value-sextet n 4096,
        value-sextet n 64,
        value-letter (n % 64) (omega arith),
        first_byte b0 b1 b2 h0 h1 h2,
        second_byte b0 b1 b2 h0 h1 h2,
        third_byte b0 b1 b2 h0 h1 h2,
      )
      refl

group-two :
    (b0 b1 : ℕ)
    → b0 < 256
    → b1 < 256
    → let n = word b0 b1 0 in
      group (letter (n / 262144 % 64)) (letter (n / 4096 % 64)) (letter (n / 64 % 64)) b'='
      ≡ some (b0 ∷ b1 ∷ [])
unfolding group
group-two b0 b1 h0 h1 =
    let n = word b0 b1 0 in
    rw
      (
        group,
        value-sextet n 262144,
        value-sextet n 4096,
        value-sextet n 64,
        value-padding,
        first_byte b0 b1 0 h0 h1 (omega arith),
        second_byte b0 b1 0 h0 h1 (omega arith),
      )
      refl

group-one :
    (b0 : ℕ)
    → b0 < 256
    → let n = word b0 0 0 in
      group (letter (n / 262144 % 64)) (letter (n / 4096 % 64)) b'=' b'=' ≡ some (b0 ∷ [])
unfolding group
group-one b0 h0 =
    let n = word b0 0 0 in
    rw
      (
        group,
        value-sextet n 262144,
        value-sextet n 4096,
        value-padding,
        first_byte b0 0 0 h0 (omega arith) (omega arith),
      )
      refl

-- A decoder by the ranges of RFC 4648 reads every list of bytes back from its base64 text.
pub b64_decode-encode :
    (input : List ℕ) → All (λ b. b < 256) input → b64_decode (b64_encode input) ≡ some input
unfolding b64_decode b64_encode
b64_decode-encode [] h = refl
b64_decode-encode (b0 ∷ []) (h0, _) = rw (b64_decode, b64_encode, group-one b0 h0) refl
b64_decode-encode (b0 ∷ b1 ∷ []) (h0, (h1, _)) =
    rw (b64_decode, b64_encode, group-two b0 b1 h0 h1) refl
b64_decode-encode (b0 ∷ b1 ∷ b2 ∷ rest) (h0, (h1, (h2, h))) =
    rw (b64_decode, b64_encode, group-full b0 b1 b2 h0 h1 h2, b64_decode-encode rest h) refl
