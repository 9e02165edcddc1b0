-- ===== src/Triage/Times.antt =====
-- The timestamps of tools/log-triage/src/main.rs. They are only compared with one another, so that
-- the model counts days from an era before year 0 (the constant 719468 + 146097 is not yet taken
-- off), where no number is negative. The patterns capture at most four digits, whose sums are far
-- from the bounds of an `i64`.
use pantheon_tools_catalog.Prelude.{
  ℕ, ◌+◌, ◌-◌, ◌*◌, ◌/◌, ◌%◌, ◌^◌, ◌≤◌, ◌≡◌, ◌&&◌, Option, none, some, leb, ltb, if◌then◌else◌,
  unwrap_or, and_then, arith,
}
use pantheon_tools_catalog.Text.{Text, codes, text_eq, parse_uint}
use pantheon_tools_catalog.Patterns.{Match, Captures, group}
use pantheon_tools_catalog.Inspect.Eol.{civil}

unfoldable pub days_from_civil : ℕ → ℕ → ℕ → ℕ
days_from_civil y m d =
    let y' = if leb m 2 then y + 399 else y + 400 in
    let era = y' / 400 in
    let yoe = y' - era * 400 in
    let mp = (m + 9) % 12 in
    let doy = (153 * mp + 2) / 5 + d - 1 in
    let doe = yoe * 365 + yoe / 4 - yoe / 100 + doy in era * 146097 + doe

unfoldable pub month_from_abbrev : Text → ℕ
unfolding text_eq
month_from_abbrev s =
    if text_eq s (codes "Jan")
    then 1
    else if text_eq s (codes "Feb")
    then 2
    else if text_eq s (codes "Mar")
    then 3
    else if text_eq s (codes "Apr")
    then 4
    else if text_eq s (codes "May")
    then 5
    else if text_eq s (codes "Jun")
    then 6
    else if text_eq s (codes "Jul")
    then 7
    else if text_eq s (codes "Aug")
    then 8
    else if text_eq s (codes "Sep")
    then 9
    else if text_eq s (codes "Oct")
    then 10
    else if text_eq s (codes "Nov")
    then 11
    else 12

-- `cap_i64`: what the patterns capture there are digits, without a minus sign
unfoldable pub cap_i64 : Captures → ℕ → ℕ
unfolding parse_uint
cap_i64 c i = unwrap_or (and_then (group c i) (λ m. parse_uint (2 ^ 63) m.matched)) 0

abbrev pub seconds : ℕ → ℕ → ℕ → ℕ → ℕ
seconds days h mi s = days * 86400 + h * 3600 + mi * 60 + s

-- the body of the first `if let`
unfoldable pub iso_ts : Captures → Option ℕ
unfolding cap_i64 days_from_civil
iso_ts c =
    let y = cap_i64 c 1 in
    let mo = cap_i64 c 2 in
    let d = cap_i64 c 3 in
    let h = cap_i64 c 4 in
    let mi = cap_i64 c 5 in
    let s = cap_i64 c 6 in
    if (leb 1 mo && leb mo 12) && (leb 1 d && leb d 31) && ltb h 24 && ltb mi 60 && ltb s 61
    then some (seconds (days_from_civil y mo d) h mi s)
    else none

abbrev pub month_text : Option Match → Text
month_text none = codes "Dec"
month_text (some m) = m.matched

-- the body of the second
unfoldable pub syslog_ts : Captures → Option ℕ
unfolding cap_i64 days_from_civil month_from_abbrev
syslog_ts c =
    let mo = month_from_abbrev (month_text (group c 1)) in
    let d = cap_i64 c 2 in
    let h = cap_i64 c 3 in
    let mi = cap_i64 c 4 in
    let s = cap_i64 c 5 in
    if (leb 1 d && leb d 31) && ltb h 24 && ltb mi 60 && ltb s 61
    then some (seconds (days_from_civil 2000 mo d) h mi s)
    else none

-- The two calendars of the tools count the same days.
pub days_from_civil-civil : (y m d : ℕ) → 1 ≤ m → m ≤ 12 → days_from_civil y m d ≡ civil y m d
unfolding days_from_civil civil
days_from_civil-civil y m d lo hi = ground arith
