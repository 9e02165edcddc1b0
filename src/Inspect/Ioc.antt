-- ===== src/Inspect/Ioc.antt =====
-- tools/ioc-match/src/main.rs. A `HashSet` is asked for members only, so the list that it is made of
-- stands for it.
pub mod Hits
use pantheon_tools_catalog.Prelude.{
  ℕ, ◌+◌, Bool, true, false, ◌||◌, Option, none, some, List, [], ◌∷◌, ◌++◌, map, length, any, find,
  filter_map, if◌then◌else◌, unwrap_or, and_then, ok_or, Result, ok, err, ◌>>=◌,
}
use pantheon_tools_catalog.Text.{Text, codes, text_eq, to_lower, trim}
use pantheon_tools_catalog.Text.Find.{replace, ends_with}
use pantheon_tools_catalog.Serde.{Serde}

pub data Error : Type 0 where
  args_not_json lists_missing : Error

pub data Kind : Type 0 where
  hash domain ip : Kind

pub record Match : Type 0 where
  pub kind : Kind
  pub observed : Text
  pub ioc : Text

unfoldable pub norm : Text → Text
unfolding trim to_lower replace
norm s =
    replace (codes "hxxp") (codes "http")
      (replace (codes "[:]") (codes ":") (replace (codes "[.]") (codes ".") (to_lower (trim s))))

unfoldable pub str_list : (j : Serde) → Option j.Value → Text → List Text
unfolding norm
str_list j v key =
    unwrap_or
      (and_then (and_then (and_then v (λ o. j.get o key)) j.as_array)
        (λ arr. some (filter_map (λ e. and_then (j.as_str e) (λ s. some (norm s))) arr)))
      []

unfoldable pub domain_hits : Text → Text → Bool
unfolding text_eq ends_with
domain_hits observed ioc = text_eq observed ioc || ends_with (b'.' ∷ ioc) observed

-- the bodies of the three loops
unfoldable pub set_hit : Kind → List Text → Text → Option Match
unfolding text_eq
set_hit kind iocs x =
    if any (text_eq x) iocs then some (record { kind = kind; observed = x; ioc = x }) else none

unfoldable pub domain_hit : List Text → Text → Option Match
unfolding domain_hits
domain_hit iocs d = elim (find (domain_hits d) iocs) [
  | none ↦ none
  | some hit ↦ some (record { kind = domain; observed = d; ioc = hit })
]

-- The three lists of observations, or of indicators.
pub record Lists : Type 0 where
  pub hashes : List Text
  pub domains : List Text
  pub ips : List Text

unfoldable pub match_lists : Lists → Lists → List Match
unfolding set_hit domain_hit
match_lists o i =
    filter_map (set_hit hash i.hashes) o.hashes
    ++ filter_map (domain_hit i.domains) o.domains
    ++ filter_map (set_hit ip i.ips) o.ips

unfoldable pub read_lists : (j : Serde) → Option j.Value → Lists
unfolding str_list
read_lists j v = record {
  hashes = str_list j v (codes "hashes");
  domains = str_list j v (codes "domains");
  ips = str_list j v (codes "ips");
}

pub record Output : Type 0 where
  pub checked : ℕ
  pub match_count : ℕ
  pub matches : List Match

unfoldable pub run : Serde → Option Text → Result Error Output
unfolding read_lists match_lists
run j raw = do
  a ← ok_or (j.from_str (unwrap_or raw (codes "{}"))) args_not_json
  obs ← ok_or (j.get a (codes "observations")) lists_missing
  iocs ← ok_or (j.get a (codes "iocs")) lists_missing
  let o = read_lists j (some obs)
  let matches = match_lists o (read_lists j (some iocs))
  ok (record {
    checked = length o.hashes + length o.domains + length o.ips;
    match_count = length matches;
    matches = matches;
  })
