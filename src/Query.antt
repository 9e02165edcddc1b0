-- ===== src/Query.antt =====
-- tools/json-query/src/main.rs: a value found in a JSON document by a dotted path.
pub mod Compose
pub mod Reaches
use pantheon_tools_catalog.Prelude.{
  ℕ, ◌^◌, Bool, true, false, Option, none, some, List, [], ◌∷◌, get_elem?, length, is_empty, ◌==◌,
  if◌then◌else◌, unwrap_or, ok_or, Result, ok, err, ◌>>=◌,
}
use pantheon_tools_catalog.Text.{Text, codes, split, parse_uint}
use pantheon_tools_catalog.Serde.{Serde, usize_mod, str_arg, bool_arg}

pub data Error : Type 0 where
  args_not_json no_source : Error
  read_failed file_not_json : Text → Error

-- What the tool asks serde_json for beside `Serde`, and the files.
pub record Document (j : Serde) : Type 0 where
  -- `std::fs::read`
  pub read : Text → Option (List ℕ)
  pub from_slice : List ℕ → Option j.Value
  -- `Value::String`
  pub string : Text → j.Value
  -- the keys of an object
  pub keys : j.Value → List Text

unfoldable pub is_dot : ℕ → Bool
is_dot c = c == b'.'

module _ (j : Serde) where
  open j use {Value, get, as_array, as_str, is_object}

  -- One segment: an index of an array, or a key of an object.
  unfoldable pub descend : Value → Text → Option Value
  unfolding parse_uint
  descend cur seg = elim (as_array cur) [
    | some a ↦ elim (parse_uint usize_mod seg) [ some i ↦ get_elem? a i | none ↦ none ]
    | none ↦ if is_object cur then get cur seg else none
  ]

  -- `for seg in query.split('.')`
  unfoldable pub follow : Value → List Text → Option Value
  follow cur [] = some cur
  follow cur (seg ∷ segs) = elim seg [
    | [] ↦ follow cur segs
    | c ∷ s ↦ elim (descend cur (c ∷ s)) [ some v ↦ follow v segs | none ↦ none ]
  ]

  unfoldable pub navigate : Value → Text → Option Value
  unfolding follow split is_dot
  navigate root query =
      let found = follow root (split is_dot query) in if is_empty query then some root else found

  -- What is reported of the value that was found.
  pub record Output : Type 0 where
    pub is_match : Bool
    pub query : Text
    -- `Null` without a match
    pub result : Option Value
    pub keys : Option (List Text)
    pub length : Option ℕ

  -- `Value::Object`, `Value::Array` and any other value, with `keys` asked for
  unfoldable pub shape : Document j → Bool → Value → Option (List Text) × Option ℕ
  shape doc want_keys v = elim (as_array v) [
    | some arr ↦ if want_keys then (none, some (length arr)) else (none, none)
    | none ↦
        if is_object v
        then (if want_keys then (some (doc.keys v), some (length (doc.keys v))) else (none, none))
        else (none, none)
  ]

  unfoldable pub report : Document j → Value → Text → Bool → Output
  unfolding navigate shape
  report doc root query want_keys = elim (navigate root query) [
    | some v ↦ record {
      is_match = true;
      query = query;
      result = some v;
      keys = (shape doc want_keys v).0;
      length = (shape doc want_keys v).1;
    }
    | none ↦ record { is_match = false; query = query; result = none; keys = none; length = none }
  ]

  -- `input`: a text that is JSON is read, any other value stands for itself
  unfoldable pub inline : Document j → Value → Value
  inline doc v = elim (as_str v) [ some s ↦ unwrap_or (j.from_str s) (doc.string s) | none ↦ v ]

  unfoldable pub read_root : Document j → Value → Result Error Value
  unfolding inline
  read_root doc a = elim (get a (codes "input")) [
    | some v ↦ ok (inline doc v)
    | none ↦ elim (str_arg j a "path_file") [
      | none ↦ err no_source
      | some p ↦ elim (doc.read p) [
        | none ↦ err (read_failed p)
        | some bytes ↦ ok_or (doc.from_slice bytes) (file_not_json p)
      ]
    ]
  ]

  unfoldable pub run : Document j → Option Text → Result Error Output
  unfolding read_root report
  run doc raw = do
    a ← ok_or (j.from_str (unwrap_or raw (codes "{}"))) args_not_json
    root ← read_root doc a
    ok (
        report doc root (unwrap_or (str_arg j a "query") [])
          (unwrap_or (bool_arg j a "keys") false))
