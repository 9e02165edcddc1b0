-- ===== src/Net/Resolve.antt =====
-- tools/dns-resolve/src/main.rs. The answers of the resolver are a parameter.
pub mod Distinct
use pantheon_tools_catalog.Prelude.{
  ℕ, Bool, true, false, not, Option, none, some, List, [], ◌∷◌, map, length, retain, filter_map,
  is_empty, ltb, if◌then◌else◌, unwrap_or, ok_or, ensure, Result, ok, err, ◌>>=◌, ◌>>◌,
}
use pantheon_tools_catalog.Text.{Text, codes, text_eq}
use pantheon_tools_catalog.Text.Order.{text_le}
use pantheon_tools_catalog.Serde.{Serde, array_arg}
use pantheon_tools_catalog.Sort.{sort}

pub data Error : Type 0 where
  args_not_json names_missing no_names too_many : Error

pub record Answer : Type 0 where
  pub name : Text
  pub addrs : List Text
  pub count : ℕ
  -- whether an error is reported
  pub is_error : Bool

pub record Output : Type 0 where
  pub count : ℕ
  pub resolved : ℕ
  pub results : List Answer

-- `Vec::dedup`: of equal neighbours the first stays
unfoldable pub dedup_after : Text → List Text → List Text
unfolding text_eq
dedup_after x [] = []
dedup_after x (y ∷ ys) = if text_eq y x then dedup_after x ys else y ∷ dedup_after y ys

unfoldable pub dedup : List Text → List Text
unfolding dedup_after
dedup [] = []
dedup (x ∷ xs) = x ∷ dedup_after x xs

module _ (lookup : Text → Option (List Text)) where
  -- `lookup` is `(name, 0).to_socket_addrs()`, each address printed
  unfoldable pub resolve : Text → Answer
  unfolding sort text_le dedup
  resolve name = elim (lookup name) [
    | some it ↦
        let addrs = dedup (sort text_le it) in
        record { name = name; addrs = addrs; count = length addrs; is_error = false }
    | none ↦ record { name = name; addrs = []; count = 0; is_error = true }
  ]

  unfoldable pub resolve_all : List Text → Output
  unfolding resolve
  resolve_all names =
      let results = map resolve names in
      record {
        count = length results;
        resolved = length (retain (λ (r : Answer). ltb 0 r.count) results);
        results = results;
      }

  unfoldable pub run : Serde → Option Text → Result Error Output
  unfolding resolve_all
  run j raw = do
    a ← ok_or (j.from_str (unwrap_or raw (codes "{}"))) args_not_json
    arr ← ok_or (array_arg j a "names") names_missing
    ensure (not (is_empty (filter_map j.as_str arr))) no_names
    ensure (not (ltb 50 (length (filter_map j.as_str arr)))) too_many
    ok (resolve_all (filter_map j.as_str arr))
