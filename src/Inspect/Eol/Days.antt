-- ===== src/Inspect/Eol/Days.antt =====
-- The Gregorian calendar, beside the day count of eol-check.
use pantheon_tools_catalog.Prelude.{
  ℕ, ◌+◌, ◌-◌, ◌%◌, ◌^◌, ◌≤◌, ◌≡◌, ◌⊎◌, refl, Bool, true, false, not, ◌&&◌, ◌||◌, ltb, ◌==◌,
  if◌then◌else◌, arith, inl, inr, Bool-cases,
}
use pantheon_tools_catalog.Inspect.Eol.{civil, days_of, delta_of}

-- The rule of the Gregorian calendar.
unfoldable pub is_leap : ℕ → Bool
is_leap y = (y % 4 == 0 && not (y % 100 == 0)) || y % 400 == 0

unfoldable pub days_in_month : ℕ → ℕ → ℕ
unfolding is_leap
days_in_month y m =
    if m == 2
    then (if is_leap y then 29 else 28)
    else if m == 4 || m == 6 || m == 9 || m == 11
    then 30
    else 31

civil-same_month : (y m d : ℕ) → 1 ≤ d → civil y m (d + 1) ≡ civil y m d + 1
unfolding civil
civil-same_month y m d h = omega arith

civil-new_year : (y : ℕ) → civil (y + 1) 1 1 ≡ civil y 12 31 + 1
unfolding civil
civil-new_year y = ground arith

civil-march_leap : (y : ℕ) → is_leap y ≡ true → civil y 3 1 ≡ civil y 2 29 + 1
unfolding civil is_leap
civil-march_leap y h = ground arith

civil-march : (y : ℕ) → is_leap y ≡ false → civil y 3 1 ≡ civil y 2 28 + 1
unfolding civil is_leap
civil-march y h = ground arith

civil-short :
    (y m : ℕ)
    → (m == 4 || m == 6 || m == 9 || m == 11) ≡ true
    → civil y (m + 1) 1 ≡ civil y m 30 + 1
unfolding civil
civil-short y m h = ground arith

civil-long :
    (y m : ℕ)
    → (m == 1 || m == 3 || m == 5 || m == 7 || m == 8 || m == 10) ≡ true
    → civil y (m + 1) 1 ≡ civil y m 31 + 1
unfolding civil
civil-long y m h = ground arith

abbrev pub Date : Type 0
Date = ℕ × ℕ × ℕ

-- The day after a date.
unfoldable pub next_day : ℕ → ℕ → ℕ → Date
unfolding days_in_month
next_day y m d =
    if ltb d (days_in_month y m)
    then (y, m, d + 1)
    else if m == 12
    then (y + 1, 1, 1)
    else (y, m + 1, 1)

abbrev pub IsDate : ℕ → ℕ → ℕ → Type 0
IsDate y m d = (1 ≤ m) × (m ≤ 12) × (1 ≤ d) × (d ≤ days_in_month y m)

civil_of : Date → ℕ
civil_of (y, m, d) = civil y m d

days_in_month-31 :
    (y m : ℕ)
    → (m == 1 || m == 3 || m == 5 || m == 7 || m == 8 || m == 10) ≡ true
    → days_in_month y m ≡ 31
unfolding days_in_month
days_in_month-31 y m h = ground arith

days_in_month-30 :
    (y m : ℕ) → (m == 4 || m == 6 || m == 9 || m == 11) ≡ true → days_in_month y m ≡ 30
unfolding days_in_month
days_in_month-30 y m h = ground arith

month-cases :
    (m : ℕ)
    → 1 ≤ m
    → m ≤ 12
    → ((m == 1 || m == 3 || m == 5 || m == 7 || m == 8 || m == 10) ≡ true)
      ⊎ (((m == 4 || m == 6 || m == 9 || m == 11) ≡ true) ⊎ ((m ≡ 2) ⊎ (m ≡ 12)))
month-cases m a b = ground arith

february : (y : ℕ) → (days_in_month y 2 ≡ (if is_leap y then 29 else 28))
unfolding days_in_month
february y = refl

december : (y : ℕ) → days_in_month y 12 ≡ 31
unfolding days_in_month
december y = refl

-- The last day of a month is followed by the first of the next.
civil-month_end :
    (y m : ℕ)
    → 1 ≤ m
    → m ≤ 12
    → (m == 12) ≡ false
    → civil y (m + 1) 1 ≡ civil y m (days_in_month y m) + 1
civil-month_end y m a b h = elim (month-cases m a b) [
  | inl long ↦ rw (days_in_month-31 y m long) (civil-long y m long)
  | inr (inl short) ↦ rw (days_in_month-30 y m short) (civil-short y m short)
  | inr (inr (inl feb)) ↦
      rw (feb, february y)
        (elim (Bool-cases (is_leap y)) [
          | inl leap ↦ rw leap (civil-march_leap y leap)
          | inr plain ↦ rw plain (civil-march y plain)
        ])
  | inr (inr (inr dec)) ↦ absurd (ground arith)
]

civil-next_day : (y m d : ℕ) → IsDate y m d → civil_of (next_day y m d) ≡ civil y m d + 1
unfolding next_day civil_of
civil-next_day y m d (a, b, c, e) = elim (Bool-cases (ltb d (days_in_month y m))) [
  | inl inner ↦ rw (inner, next_day) (civil-same_month y m d c)
  | inr last ↦
      let end_of : d ≡ days_in_month y m = ground arith in
      rw (last, next_day)
        (elim (Bool-cases (m == 12)) [
          | inl dec ↦
              let twelve : m ≡ 12 = ground arith in
              let day : d ≡ 31 = ground (arith, december y) in rw (twelve, day) (civil-new_year y)
          | inr other ↦ rw (other, end_of) (civil-month_end y m a b other)
        ])
]

one_apart :
    (a b : ℕ)
    → b ≡ a + 1
    → ((b % 2 ^ 64 + (2 ^ 64 - (719468 + 146097))) % 2 ^ 64
          + (2 ^ 64 - (a % 2 ^ 64 + (2 ^ 64 - (719468 + 146097))) % 2 ^ 64))
        % 2 ^ 64
      ≡ 1
one_apart a b h = omega arith

-- The day after a date of the Gregorian calendar, from year 0 on, is one day away from it by the
-- arithmetic of the tool, wrap-around included.
pub days_of-next_day :
    (y m d : ℕ)
    → IsDate y m d
    → let (y', m', d') = next_day y m d in delta_of (days_of y m d) (days_of y' m' d') ≡ 1
unfolding delta_of days_of civil_of
days_of-next_day y m d h =
    let (y', m', d') = next_day y m d in
    one_apart (civil y m d) (civil y' m' d') (civil-next_day y m d h)
