-- ===== src/Compliance/Sshd.antt =====
-- The sshd-style keyword files of tools/compliance-scan/src/main.rs.
pub mod FirstWins
use pantheon_tools_catalog.Prelude.{
  ℕ, zero, suc, ◌+◌, ◌-◌, max, Bool, true, false, not, ◌&&◌, ◌||◌, Option, none, some, List, [],
  ◌∷◌, ◌++◌, map, retain, take, drop, any, is_empty, get_elem?, ltb, ◌==◌, if◌then◌else◌, Ordering,
  Result, ok, err, ◌>>=◌,
}
use pantheon_tools_catalog.Text.{
  Text, codes, lines, trim, trim_start, to_lower, is_space, text_eq, take_while,
}
use pantheon_tools_catalog.Text.Order.{text_cmp}
use pantheon_tools_catalog.Sort.{sort}
use pantheon_tools_catalog.Glob.{glob_match}
use pantheon_tools_catalog.Compliance.Host.{Host, FsErr, denied, missing, failed}

pub record Setting : Type 0 where
  pub value : Text
  pub file : Text

pub data Lookup : Type 0 where
  file_missing absent : Lookup
  found : Setting → Lookup

abbrev pub ends_keyword : ℕ → Bool
ends_keyword c = is_space c || c == b'='

unfoldable pub drop_while : (ℕ → Bool) → Text → Text
drop_while p [] = []
drop_while p (c ∷ s) = if p c then drop_while p s else c ∷ s

abbrev pub strip_equals : Text → Text
strip_equals [] = []
strip_equals (c ∷ s) = if c == b'=' then s else c ∷ s

unfoldable pub split_keyword : Text → Text × Text
unfolding drop_while take_while is_space trim_start
split_keyword line =
    let rest = trim_start (drop_while (λ c. not (ends_keyword c)) line) in
    (take_while (λ c. not (ends_keyword c)) line, trim_start (strip_equals rest))

-- The loop over the characters, with `cur`, `quoted` and `any`; what is pushed comes first.
unfoldable pub args_from : Text → Bool → Bool → Text → List Text
unfolding is_space
args_from cur quoted some_read [] = if some_read then cur ∷ [] else []
args_from cur quoted some_read (c ∷ s) =
    let quote = c == b'"' in
    let gap = is_space c && not quoted in
    let pushed : List Text = if not quote && gap && some_read then cur ∷ [] else [] in
    let cur' : Text =
      if quote then cur else if gap then (if some_read then [] else cur) else cur ++ c ∷ [] in
    let quoted' = if quote then not quoted else quoted in
    pushed ++ args_from cur' quoted' (quote || not gap) s

unfoldable pub split_args : Text → List Text
unfolding args_from
split_args rest = args_from [] false false rest

abbrev pub contains_char : ℕ → Text → Bool
contains_char x = any (λ c. c == x)

unfoldable pub separator : Text → ℕ
separator path = if contains_char b'/' path || not (contains_char b'\\' path) then b'/' else b'\\'

-- The second byte is a colon where the first character is one byte and the second is a colon.
unfoldable pub is_absolute : Text → Bool
is_absolute [] = false
is_absolute (c ∷ s) =
    c == b'/'
    || c == b'\\'
    || (ltb c 128 && elim (get_elem? s 0) [ none ↦ false | some d ↦ d == b':' ])

-- `path.rfind(['/', '\\'])`
unfoldable pub last_separator : Text → Option ℕ
last_separator [] = none
last_separator (c ∷ s) = elim (last_separator s) [
  | some i ↦ some (suc i)
  | none ↦ if c == b'/' || c == b'\\' then some 0 else none
]

unfoldable pub parent_dir : Text → Text
unfolding last_separator
parent_dir path = elim (last_separator path) [ none ↦ codes "." | some i ↦ take (max i 1) path ]

abbrev pub name_le : Text → Text → Bool
name_le a b = elim (text_cmp a b) [ Ordering.gt ↦ false | _ ↦ true ]

-- What a search gives: an error, nothing, or the first setting.
abbrev pub Hit : Type 0
Hit = Result FsErr (Option Setting)

-- One search, and the other where it finds nothing.
abbrev pub or_else : Hit → Hit → Hit
or_else (err e) later = err e
or_else (ok (some s)) later = ok (some s)
or_else (ok none) later = later

-- A loop that returns at the first hit or error.
abbrev pub first_hit : (Text → Hit) → List Text → Hit
first_hit f [] = ok none
first_hit f (x ∷ xs) = or_else (f x) (first_hit f xs)

module _ (host : Host) (base : Text) where
  -- the listing of a directory whose last part is a glob
  unfoldable pub expand_glob : Text → Text → Result FsErr (List Text)
  unfolding separator glob_match text_cmp sort
  expand_glob dir last = elim (host.list dir) [
    | err missing ↦ ok []
    | err e ↦ err e
    | ok names ↦
        ok (map (λ n. dir ++ (separator dir ∷ n)) (sort name_le (retain (glob_match last) names)))
  ]

  unfoldable pub expand_include : Text → Result FsErr (List Text)
  unfolding expand_glob separator is_absolute last_separator
  expand_include pattern =
      let full : Text =
        if is_absolute pattern then pattern else base ++ (separator base ∷ pattern) in
      let (dir, last) : Text × Text = elim (last_separator full) [
        | some i ↦ (take (max i 1) full, drop (i + 1) full)
        | none ↦ (base, full)
      ] in
      if contains_char b'*' last || contains_char b'?' last
      then expand_glob dir last
      else ok (full ∷ [])

  -- one file of an `Include`, where `deeper` scans a text one level down
  unfoldable pub include_file : (Text → Text → Hit) → Text → Hit
  include_file deeper inc = elim (host.read inc) [
    | ok t ↦ deeper t inc
    | err missing ↦ ok none
    | err e ↦ err e
  ]

  unfoldable pub include : (Text → Text → Hit) → Text → Hit
  unfolding include_file expand_include split_args
  include deeper rest =
      first_hit (λ pattern. expand_include pattern >>= first_hit (include_file deeper))
        (split_args rest)

  module _ (want : Text) where
    -- The loop over the lines; `on_include` is what an `Include` line does.
    unfoldable pub scan_lines : (Text → Hit) → Text → List Text → Hit
    unfolding split_keyword split_args text_eq to_lower trim
    scan_lines on_include file [] = ok none
    scan_lines on_include file (raw ∷ rest) =
        let line = trim raw in
        let (kw, args) = split_keyword line in
        let kw = to_lower kw in
        let later = scan_lines on_include file rest in
        if is_empty line || contains_char b'#' (take 1 line)
        then later
        else if text_eq kw (codes "match")
        then ok none
        else if text_eq kw (codes "include")
        then or_else (on_include args) later
        else if text_eq kw want
        then ok
            (some (record { value = elim (split_args args) [ [] ↦ [] | v ∷ _ ↦ v ]; file = file }))
        else later

    -- `levels` is how many includes may still be nested: `INCLUDE_MAX_DEPTH - depth`.
    unfoldable pub scan : ℕ → Text → Text → Hit
    unfolding scan_lines include lines
    scan zero text file = scan_lines (λ _. ok none) file (lines text)
    scan (suc levels) text file = scan_lines (include (scan levels)) file (lines text)

abbrev pub include_max_depth : ℕ
include_max_depth = 8

unfoldable pub sshd_effective : Host → Text → Text → Result FsErr Lookup
unfolding scan parent_dir to_lower
sshd_effective host path directive = elim (host.read path) [
  | err missing ↦ ok file_missing
  | err e ↦ err e
  | ok text ↦
      scan host (parent_dir path) (to_lower directive) include_max_depth text path >>= λ hit.
      elim hit [ none ↦ ok absent | some s ↦ ok (found s) ]
]
