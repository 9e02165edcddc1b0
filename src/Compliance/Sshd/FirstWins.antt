-- ===== src/Compliance/Sshd/FirstWins.antt =====
-- The settings of an sshd-style file with its includes in place, beside the search for one of them.
use pantheon_tools_catalog.Prelude.{
  ℕ, zero, suc, ◌≡◌, refl, sym, ap₂, ◌∙◌, ◌||◌, Option, none, some, List, [], ◌∷◌, ◌++◌, take,
  is_empty, flat_map, if◌then◌else◌, Result, ok, err, ◌>>=◌, Bool-cases, inl, inr,
}
use pantheon_tools_catalog.Text.{Text, codes, lines, trim, to_lower, text_eq}
use pantheon_tools_catalog.Compliance.Host.{Host, FsErr, denied, missing, failed}
use pantheon_tools_catalog.Compliance.Sshd.{
  Setting, Hit, Lookup, found, absent, or_else, first_hit, contains_char, split_keyword, split_args,
  expand_include, include_file, include, scan_lines, scan, sshd_effective, parent_dir,
  include_max_depth,
}

-- What the expanded text says at one place: a keyword has a value, or an include cannot be read.
pub data Event : Type 0 where
  sets : Text → Setting → Event
  fault : FsErr → Event

-- The first event that is a fault or sets the keyword.
abbrev pub search : Text → List Event → Hit
search want [] = ok none
search want (fault e ∷ rest) = err e
search want (sets kw s ∷ rest) = if text_eq kw want then ok (some s) else search want rest

search-append :
    (want : Text) (xs ys : List Event)
    → search want (xs ++ ys) ≡ or_else (search want xs) (search want ys)
search-append want [] ys = refl
search-append want (fault e ∷ xs) ys = refl
search-append want (sets kw s ∷ xs) ys = elim (Bool-cases (text_eq kw want)) [
  | inl this ↦ rw this refl
  | inr other ↦ rw other (search-append want xs ys)
]

first_hit-search :
    (want : Text) (f : Text → Hit) (g : Text → List Event)
    → ((x : Text) → f x ≡ search want (g x))
    → (xs : List Text) → first_hit f xs ≡ search want (flat_map g xs)
first_hit-search want f g h [] = refl
first_hit-search want f g h (x ∷ xs) =
    ap₂ or_else (h x) (first_hit-search want f g h xs)
    ∙ sym (search-append want (g x) (flat_map g xs))

module _ (host : Host) (base : Text) where
  abbrev file_events : (Text → Text → List Event) → Text → List Event
  file_events deeper inc = elim (host.read inc) [
    | ok t ↦ deeper t inc
    | err missing ↦ []
    | err e ↦ fault e ∷ []
  ]

  abbrev pattern_events : (Text → Text → List Event) → Text → List Event
  pattern_events deeper pattern = elim (expand_include host base pattern) [
    | ok files ↦ flat_map (file_events deeper) files
    | err e ↦ fault e ∷ []
  ]

  abbrev include_events : (Text → Text → List Event) → Text → List Event
  include_events deeper rest = flat_map (pattern_events deeper) (split_args rest)

  -- The settings of the lines up to a `Match` line, with the includes in their places.
  abbrev line_events : (Text → List Event) → Text → List Text → List Event
  line_events on_include file [] = []
  line_events on_include file (raw ∷ rest) =
      let line = trim raw in
      let (kw, args) = split_keyword line in
      let kw = to_lower kw in
      let later = line_events on_include file rest in
      if is_empty line || contains_char b'#' (take 1 line)
      then later
      else if text_eq kw (codes "match")
      then []
      else if text_eq kw (codes "include")
      then on_include args ++ later
      else sets kw (record { value = elim (split_args args) [ [] ↦ [] | v ∷ _ ↦ v ]; file = file })
        ∷ later

  -- The settings of a text, where `levels` includes may be nested.
  unfoldable pub settings : ℕ → Text → Text → List Event
  settings zero text file = line_events (λ _. []) file (lines text)
  settings (suc levels) text file = line_events (include_events (settings levels)) file (lines text)

  module _ (want : Text) (deep : Text → Text → Hit) (events : Text → Text → List Event)
      (same : (text file : Text) → deep text file ≡ search want (events text file)) where
    include_file-search :
        (inc : Text) → include_file host base deep inc ≡ search want (file_events events inc)
    unfolding include_file
    include_file-search inc = go (host.read inc)
      where
        go :
            (r : Result FsErr Text)
            → elim r as (λ _. Hit) [ ok t ↦ deep t inc | err missing ↦ ok none | err e ↦ err e ]
              ≡ search want (elim r as (λ _. List Event) [
                | ok t ↦ events t inc
                | err missing ↦ []
                | err e ↦ fault e ∷ []
              ])
        go (ok t) = same t inc
        go (err missing) = refl
        go (err (denied m)) = refl
        go (err (failed m)) = refl

    include-search :
        (rest : Text) → include host base deep rest ≡ search want (include_events events rest)
    unfolding include
    include-search rest = first_hit-search want _ (pattern_events events) pattern (split_args rest)
      where
        pattern :
            (p : Text)
            → (expand_include host base p >>= first_hit (include_file host base deep))
              ≡ search want (pattern_events events p)
        pattern p = go (expand_include host base p)
          where
            go :
                (r : Result FsErr (List Text))
                → (r >>= first_hit (include_file host base deep))
                  ≡ search want (elim r as (λ _. List Event) [
                    | ok files ↦ flat_map (file_events events) files
                    | err e ↦ fault e ∷ []
                  ])
            go (ok files) = first_hit-search want _ (file_events events) include_file-search files
            go (err e) = refl

  module _ (want : Text) where
    scan_lines-search :
        (on_include : Text → Hit) (events : Text → List Event)
        → ((rest : Text) → on_include rest ≡ search want (events rest))
        → (file : Text) (ls : List Text)
        → scan_lines host base want on_include file ls ≡ search want (line_events events file ls)
    unfolding scan_lines
    scan_lines-search on_include events h file [] = refl
    scan_lines-search on_include events h file (raw ∷ rest) =
        let line = trim raw in
        let later = scan_lines-search on_include events h file rest in
        let kw = to_lower ((split_keyword line).0) in
        elim (Bool-cases (is_empty line || contains_char b'#' (take 1 line))) [
          | inl comment ↦ rw comment later
          | inr setting ↦ rw setting (elim (Bool-cases (text_eq kw (codes "match"))) [
            | inl ends ↦ rw ends refl
            | inr goes ↦ rw goes (elim (Bool-cases (text_eq kw (codes "include"))) [
              | inl more ↦ rw more (
                  ap₂ or_else (h ((split_keyword line).1)) later
                  ∙ sym (search-append want (events ((split_keyword line).1)) _))
              | inr plain ↦ rw plain (elim (Bool-cases (text_eq kw want)) [
                | inl this ↦ rw this refl
                | inr other ↦ rw other later
              ])
            ])
          ])
        ]

    scan-search :
        (levels : ℕ) (text file : Text)
        → scan host base want levels text file ≡ search want (settings levels text file)
    unfolding scan settings
    scan-search zero text file =
        scan_lines-search (λ _. ok none) (λ _. []) (λ _. refl) file (lines text)
    scan-search (suc levels) text file =
        scan_lines-search (include host base (scan host base want levels))
          (include_events (settings levels))
          (include-search want (scan host base want levels) (settings levels) (scan-search levels))
          file (lines text)

abbrev pub lookup_of : Option Setting → Lookup
lookup_of none = absent
lookup_of (some s) = found s

-- Of a file that the host reads, the effective value of a directive is the first one, without regard
-- to case, among the settings of the file and of its includes in their places, which do not depend
-- on the directive; an include that cannot be read and stands before it is an error.
pub sshd_effective-search :
    (host : Host) (path directive text : Text)
    → host.read path ≡ ok text
    → sshd_effective host path directive ≡ (
        search (to_lower directive) (settings host (parent_dir path) include_max_depth text path)
        >>= λ hit. ok (lookup_of hit))
unfolding sshd_effective
sshd_effective-search host path directive text e =
    rw
      (
        sshd_effective,
        e,
        scan-search host (parent_dir path) (to_lower directive) include_max_depth text path,
      )
      (go
        (search (to_lower directive) (settings host (parent_dir path) include_max_depth text path)))
  where
    go :
        (r : Hit)
        → ◌≡◌ {A = Result FsErr Lookup}
            (r >>= λ hit. elim hit [ none ↦ ok absent | some s ↦ ok (found s) ])
            (r >>= λ hit. ok (lookup_of hit))
    go (ok none) = refl
    go (ok (some s)) = refl
    go (err e) = refl
