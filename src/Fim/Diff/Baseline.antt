-- ===== src/Fim/Diff/Baseline.antt =====
-- tools/fim-diff/src/main.rs, `load_baseline`, and the errors of the tool.
use pantheon_tools_catalog.Prelude.{
  ℕ, zero, suc, ◌*◌, Bool, true, false, not, ◌&&◌, Option, none, some, List, [], ◌∷◌, ltb,
  if◌then◌else◌, ok_or, ensure, and_then, Result, ok, err, ◌>>=◌, ◌>>◌,
}
use pantheon_tools_catalog.Text.{Text, codes}
use pantheon_tools_catalog.Serde.{Serde, str_arg}
use pantheon_tools_catalog.Fs.{World, Contents, is_file, unreadable, binary, text}
use pantheon_tools_catalog.Map.{Map, insert}

-- The error payloads, without their texts. `out_of_fuel` belongs to the model only.
pub data Error : Type 0 where
  args_not_json max_files_zero baseline_missing bad_shape out_of_fuel : Error
  stat_failed not_regular too_big read_failed bad_json indirection root_not_dir : Text → Error
  bad_entry : ℕ → Error

abbrev pub is_some {ℓ} : {A : Type ℓ} → Option A → Bool
is_some none = false
is_some (some _) = true

module _ (j : Serde) where
  open j use {Value, from_str, get, as_array, is_object}

  -- `v.as_object().and_then(|o| o.get(key))`
  abbrev pub field : Value → Text → Option Value
  field v key = if is_object v then get v key else none

  -- the loop over the entries
  unfoldable pub read_entries : ℕ → List Value → Map Text → Result Error (Map Text)
  read_entries i [] map = ok map
  read_entries i (item ∷ rest) map = elim (str_arg j item "path") [
    | none ↦ err (bad_entry i)
    | some p ↦ elim (str_arg j item "sha256") [
      | none ↦ err (bad_entry i)
      | some s ↦ read_entries (suc i) rest (insert p s map)
    ]
  ]

  -- the second and third form: a snapshot object, or its `files` array
  unfoldable pub load_entries : Value → Result Error (Map Text)
  unfolding read_entries
  load_entries v = do
    arr ←
        ok_or (elim (field v (codes "files")) [ some files ↦ as_array files | none ↦ as_array v ])
          bad_shape
    read_entries 0 arr []

  -- `fs::read` and `serde_json::from_slice`
  unfoldable pub read_json : Text → Contents → Result Error Value
  read_json p unreadable = err (read_failed p)
  read_json p binary = err (bad_json p)
  read_json p (text t) = ok_or (from_str t) (bad_json p)

  module _ (w : World) where
    -- Each level of fuel is a file that is read.
    unfoldable pub load_level : ℕ → Value → Result Error (Map Text)
    unfolding load_entries read_json
    load_level zero v = err out_of_fuel
    load_level (suc fuel) v = elim (and_then (field v (codes "path")) j.as_str) [
      | none ↦ load_entries v
      | some p ↦ do
        meta ← ok_or (w.file_at p).stat (stat_failed p)
        ensure (is_file meta) (not_regular p)
        ensure (not (ltb (64 * 1048576) meta.len)) (too_big p)
        doc ← read_json p (w.file_at p).contents
        ensure (not (is_some (get doc (codes "path")) && not (is_some (as_array doc))))
            (indirection p)
        load_level fuel doc
    ]

    unfoldable pub load_baseline : Value → Result Error (Map Text)
    unfolding load_level
    load_baseline = load_level 2
