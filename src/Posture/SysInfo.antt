-- ===== src/Posture/SysInfo.antt =====
-- tools/sysinfo/src/main.rs. The clock, the variables of the environment and the bytes of a text are
-- parameters.
use pantheon_tools_catalog.Prelude.{
  ℕ, zero, suc, ◌+◌, ◌*◌, ◌/◌, ◌%◌, ◌^◌, Option, none, some, List, [], ◌∷◌, ◌++◌, map, length,
  foldl, unwrap_or, ok_or, Result, ok, ◌>>=◌,
}
use pantheon_tools_catalog.Text.{Text, codes, hex_digit}
use pantheon_tools_catalog.Serde.{Serde, str_arg}
use pantheon_tools_catalog.Sort.{sort}
use pantheon_tools_catalog.Text.Order.{text_le}

pub data Error : Type 0 where
  args_not_json : Error

pub record System : Type 0 where
  pub as_bytes : Text → List ℕ
  -- milliseconds since the Unix epoch, unless the clock stands before it
  pub now : Option ℕ
  pub env : List (Text × Text)

pub record Output : Type 0 where
  pub note : Option Text
  pub note_hash_djb2 : Option Text
  pub wall_clock_unix_ms : ℕ
  pub arg_count : ℕ
  pub env_key_count : ℕ
  pub env_keys : List Text

-- `h.wrapping_mul(33).wrapping_add(b)`
unfoldable pub djb2_step : ℕ → ℕ → ℕ
djb2_step h b = (h * 33 + b) % 2 ^ 64

-- `format!("{h:016x}")`, the last `n` digits
unfoldable pub hex : ℕ → ℕ → Text
unfolding hex_digit
hex zero h = []
hex (suc n) h = hex n (h / 16) ++ hex_digit (h % 16) ∷ []

unfoldable pub djb2_hex : List ℕ → Text
unfolding djb2_step hex
djb2_hex bytes = hex 16 (foldl djb2_step 5381 bytes)

unfoldable pub observe : System → ℕ → Option Text → Output
unfolding djb2_hex sort text_le
observe s arg_count note =
    let env_keys = sort text_le (map (λ (e : Text × Text). e.0) s.env) in
    record {
      note = note;
      note_hash_djb2 = elim note [ some n ↦ some (djb2_hex (s.as_bytes n)) | none ↦ none ];
      wall_clock_unix_ms = unwrap_or s.now 0 % 2 ^ 64;
      arg_count = arg_count;
      env_key_count = length env_keys;
      env_keys = env_keys;
    }

-- the first of the arguments, which are also counted
unfoldable pub first : List Text → Option Text
first [] = none
first (a ∷ args) = some a

unfoldable pub main : Serde → System → List Text → Result Error Output
unfolding observe first
main j s args = do
  parsed ← ok_or (j.from_str (unwrap_or (first args) (codes "{}"))) args_not_json
  ok (observe s (length args) (str_arg j parsed "note"))
