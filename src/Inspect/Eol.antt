-- ===== src/Inspect/Eol.antt =====
-- tools/eol-check/src/main.rs. An `i64` is kept by its residue modulo 2^64; the residues from 2^63 on
-- are the negative numbers.
pub mod Days
use pantheon_tools_catalog.Prelude.{
  ℕ, ◌+◌, ◌-◌, ◌*◌, ◌/◌, ◌%◌, ◌^◌, Bool, true, false, not, ◌&&◌, ◌||◌, Option, none, some, List, [],
  ◌∷◌, ◌++◌, length, find, filter_map, get_elem?, is_empty, leb, ltb, if◌then◌else◌, unwrap_or,
  and_then, ok_or, Result, ok, err, ◌>>=◌, ◌==◌,
}
use pantheon_tools_catalog.Text.{
  Text, codes, text_eq, split, parse_uint, to_lower, eq_ignore_case, starts_with,
}
use pantheon_tools_catalog.Serde.{Serde, str_arg, array_arg}

pub data Error : Type 0 where
  args_not_json products_missing table_missing : Error

-- `it.next()?.parse().ok()?`: a piece between dashes has no minus sign
unfoldable pub number_at : List Text → ℕ → Option ℕ
number_at pieces i = and_then (get_elem? pieces i) (parse_uint (2 ^ 63))

-- Hinnant's day count of a date, with the year counted from the era before year 0, so that it is no
-- negative number, and the constant 719468 + 146097 not yet taken off.
unfoldable pub civil : ℕ → ℕ → ℕ → ℕ
civil y m d =
    let y' = if leb m 2 then y + 399 else y + 400 in
    let era = y' / 400 in
    let yoe = y' - era * 400 in
    let doy = (153 * (if ltb 2 m then m - 3 else m + 9) + 2) / 5 + d - 1 in
    let doe = yoe * 365 + yoe / 4 - yoe / 100 + doy in era * 146097 + doe

-- `era * 146097 + doe - 719468`, which wraps around in a release build
unfoldable pub days_of : ℕ → ℕ → ℕ → ℕ
days_of y m d = (civil y m d % 2 ^ 64 + (2 ^ 64 - (719468 + 146097))) % 2 ^ 64

unfoldable pub iso_to_days : Text → Option ℕ
unfolding number_at days_of civil split parse_uint
iso_to_days s =
    let pieces = split (λ c. c == b'-') s in
    and_then (number_at pieces 0) λ y. and_then (number_at pieces 1) λ m.
      and_then (number_at pieces 2) λ d.
        if not (leb 1 m && leb m 12) || not (leb 1 d && leb d 31)
        then none
        else some (days_of y m d)

pub data Status : Type 0 where
  eol approaching supported unknown_date : Status

unfoldable pub is_negative : ℕ → Bool
is_negative n = leb (2 ^ 63) n

-- `delta`, and the status of it
unfoldable pub delta_of : ℕ → ℕ → ℕ
delta_of today eol_day = (eol_day + (2 ^ 64 - today)) % 2 ^ 64

unfoldable pub status_of : Option ℕ → Option ℕ → Status × Option ℕ
unfolding is_negative delta_of
status_of (some today) (some eol_day) =
    let delta = delta_of today eol_day in
    (
      if is_negative delta then eol else if leb delta 180 then approaching else supported,
      some delta,
    )
status_of _ _ = (unknown_date, none)

pub record Finding : Type 0 where
  pub product : Text
  pub version : Text
  pub eol_date : Text
  pub status : Status
  pub days_until : Option ℕ

module _ (j : Serde) where
  -- `opt.map(test) == Some(true)`
  abbrev pub holds : Option Text → (Text → Bool) → Bool
  holds none test = false
  holds (some x) test = test x

  -- the closure of `table.iter().find(..)`
  unfoldable pub is_cycle_of : Text → Text → j.Value → Bool
  unfolding eq_ignore_case text_eq starts_with
  is_cycle_of product version e =
      holds (str_arg j e "product") (λ s. eq_ignore_case s product)
      && holds (str_arg j e "cycle")
          (λ c. text_eq version c || starts_with (c ++ codes ".") version)

  unfoldable pub finding_of : Option ℕ → Text → Text → j.Value → Option Finding
  unfolding status_of iso_to_days
  finding_of today product version e =
      let eol_date = unwrap_or (str_arg j e "eol_date") [] in
      let (status, days_until) = status_of today (iso_to_days eol_date) in
      let found : Finding = record {
        product = product;
        version = version;
        eol_date = eol_date;
        status = status;
        days_until = days_until;
      } in
      elim status [ eol ↦ some found | approaching ↦ some found | _ ↦ none ]

  -- the body of `for p in products`
  unfoldable pub check_product : Option ℕ → List j.Value → j.Value → Option Finding
  unfolding is_cycle_of finding_of to_lower
  check_product today table p =
      let product = to_lower (unwrap_or (str_arg j p "product") []) in
      let version = unwrap_or (str_arg j p "version") [] in
      if is_empty product
      then none
      else and_then (find (is_cycle_of product version) table) (finding_of today product version)

pub record Output : Type 0 where
  pub checked : ℕ
  pub eol_count : ℕ
  pub findings : List Finding

abbrev pub is_eol : Finding → Option (Unit {0})
is_eol f = elim f.status [ eol ↦ some tt | _ ↦ none ]

unfoldable pub run : Serde → Option Text → Result Error Output
unfolding check_product iso_to_days
run j raw = do
  a ← ok_or (j.from_str (unwrap_or raw (codes "{}"))) args_not_json
  products ← ok_or (array_arg j a "products") products_missing
  table ← ok_or (array_arg j a "eol_table") table_missing
  let today = and_then (str_arg j a "today") iso_to_days
  let findings = filter_map (check_product j today table) products
  ok (record {
    checked = length products;
    eol_count = length (filter_map is_eol findings);
    findings = findings;
  })
