-- ===== src/Serde.antt =====
-- serde_json, which is not part of the repository: the type of JSON values and the methods that the
-- tools call, as a parameter of every `run`. A law of it that is needed is a
-- hypothesis.
use pantheon_tools_catalog.Prelude.{ℕ, ◌%◌, ◌^◌, Bool, Option, List, and_then}
use pantheon_tools_catalog.Text.{Text, codes}
use Prim.Native.String.{String}

pub record Serde : Type 1 where
  pub Value : Type 0
  -- `serde_json::from_str(..)`, without the text of its error
  pub from_str : Text → Option Value
  pub get : Value → Text → Option Value
  pub as_str : Value → Option Text
  pub as_u64 : Value → Option ℕ
  pub as_bool : Value → Option Bool
  pub as_array : Value → Option (List Value)
  pub is_object : Value → Bool
  pub is_null : Value → Bool

-- `usize` has 32 bits on wasm32.
abbrev pub usize_mod : ℕ
usize_mod = 2 ^ 32

-- `n as usize`
abbrev pub as_usize : ℕ → ℕ
as_usize n = n % usize_mod

module _ (j : Serde) where
  open j use {Value, get, as_str, as_u64, as_bool, as_array}

  -- `a.get(key).and_then(|v| v.as_str())`, and so on
  abbrev pub str_arg : Value → String → Option Text
  str_arg a key = and_then (get a (codes key)) as_str

  abbrev pub u64_arg : Value → String → Option ℕ
  u64_arg a key = and_then (get a (codes key)) as_u64

  abbrev pub bool_arg : Value → String → Option Bool
  bool_arg a key = and_then (get a (codes key)) as_bool

  abbrev pub array_arg : Value → String → Option (List Value)
  array_arg a key = and_then (get a (codes key)) as_array
