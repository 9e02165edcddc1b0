-- ===== src/Fim/Diff/Levels.antt =====
-- The levels of the recursion of `load_baseline`, tools/fim-diff/src/main.rs.
use pantheon_tools_catalog.Prelude.{
  ℕ, suc, ◌*◌, ◌≡◌, refl, sym, ap, subst, ◌>>◌, if◌then◌else◌, Bool-cases, Option-cases, inl, inr,
  Bool, true, false, not, ◌&&◌, Option, none, some, List, [], ◌∷◌, arith, ltb, ok_or, ensure,
  and_then, Result, ok, err, ◌>>=◌, Option-induction, if-induction,
}
use pantheon_tools_catalog.Text.{Text, codes}
use pantheon_tools_catalog.Serde.{Serde, str_arg}
use pantheon_tools_catalog.Fs.{World, Contents, is_file, unreadable, binary, text}
use pantheon_tools_catalog.Map.{Map, insert}
use pantheon_tools_catalog.Fim.Diff.Baseline.{
  Error, out_of_fuel, args_not_json, bad_json, bad_shape, stat_failed, not_regular, too_big,
  indirection, is_some, field, read_entries, load_entries, read_json, load_level, load_baseline,
}

-- An answer of the program, and not the end of the model's fuel.
abbrev pub IsAnswer {ℓ} : {A : Type ℓ} → Result Error A → Type 0
IsAnswer (ok a) = Unit
IsAnswer (err out_of_fuel) = ⊥
IsAnswer (err _) = Unit

module _ {A B : Type 0} where
  IsAnswer-bind :
      (r : Result Error A) (f : A → Result Error B)
      → IsAnswer r
      → ((a : A) → r ≡ ok a → IsAnswer (f a))
      → IsAnswer (r >>= f)
  IsAnswer-bind (ok a) f h k = k a refl
  IsAnswer-bind (err out_of_fuel) f h k = h
  IsAnswer-bind (err args_not_json) f h k = h
  IsAnswer-bind (err _) f h k = h

module _ (j : Serde) where
  -- What serde_json documents: an array is no object.
  abbrev pub ArrayIsNoObject : Type 0
  ArrayIsNoObject = (v : j.Value) → is_some (j.as_array v) ≡ true → j.is_object v ≡ false

  read_entries-IsAnswer :
      (i : ℕ) (items : List j.Value) (m : Map Text) → IsAnswer (read_entries j i items m)
  unfolding read_entries
  read_entries-IsAnswer i [] m = tt
  read_entries-IsAnswer i (item ∷ items) m =
      Option-induction IsAnswer (str_arg j item "path") _ _ (λ _. tt)
        (λ p _.
          Option-induction IsAnswer (str_arg j item "sha256") _ _ (λ _. tt)
            (λ d _. read_entries-IsAnswer (suc i) items (insert p d m)))

  ok_or-IsAnswer :
      {A : Type 0} (o : Option A) (e : Error) → IsAnswer {A = A} (err e) → IsAnswer (ok_or o e)
  ok_or-IsAnswer none e h = h
  ok_or-IsAnswer (some a) e h = tt

  load_entries-IsAnswer : (v : j.Value) → IsAnswer (load_entries j v)
  unfolding load_entries
  load_entries-IsAnswer v =
      IsAnswer-bind _ (λ arr. read_entries j 0 arr []) (ok_or-IsAnswer _ bad_shape tt)
        (λ arr _. read_entries-IsAnswer 0 arr [])

  read_json-IsAnswer : (p : Text) (c : Contents) → IsAnswer (read_json j p c)
  unfolding read_json
  read_json-IsAnswer p unreadable = tt
  read_json-IsAnswer p binary = tt
  read_json-IsAnswer p (text t) = ok_or-IsAnswer _ (bad_json p) tt

  ensure-IsAnswer : (b : Bool) (e : Error) → IsAnswer {A = Unit {0}} (err e) → IsAnswer (ensure b e)
  ensure-IsAnswer true e h = tt
  ensure-IsAnswer false e h = h

  -- A document that passed the test on indirection holds no path.
  no_second_path :
      ArrayIsNoObject
      → (v : j.Value) (p : Text) {u : Unit {0}}
      → ensure
          (not (is_some (j.get v (codes "path")) && not (is_some (j.as_array v))))
          (indirection p)
        ≡ ok u
      → field j v (codes "path") ≡ none
  no_second_path law v p h = ground (arith, law v)

  module _ (w : World) where
    -- The document of a baseline file, or why it is refused.
    abbrev pub open_file : Text → Result Error j.Value
    open_file p = do
      meta ← ok_or (w.file_at p).stat (stat_failed p)
      ensure (is_file meta) (not_regular p)
      ensure (not (ltb (64 * 1048576) meta.len)) (too_big p)
      read_json j p (w.file_at p).contents

    -- Whether a document names a further file: it has a `path` and is no array.
    abbrev pub names_file : j.Value → Bool
    names_file doc = is_some (j.get doc (codes "path")) && not (is_some (j.as_array doc))

    -- What a baseline means, without recursion: the entries that it has itself, or those of the file
    -- that it names; a file that names a further file is refused.
    abbrev pub meaning : j.Value → Result Error (Map Text)
    meaning v = elim (and_then (field j v (codes "path")) j.as_str) [
      | none ↦ load_entries j v
      | some p ↦ do
        doc ← open_file p
        if names_file doc then err (indirection p) else load_entries j doc
    ]

    last_level :
        ArrayIsNoObject
        → (fuel : ℕ) (p : Text) (doc : j.Value)
        → (ensure (not (names_file doc)) (indirection p) >> load_level j w (suc fuel) doc)
          ≡ (if names_file doc then err (indirection p) else load_entries j doc)
    unfolding load_level
    last_level law fuel p doc = elim (Bool-cases (names_file doc)) [
      | inl further ↦ rw further refl
      | inr last ↦
          let no_path : and_then (field j doc (codes "path")) j.as_str ≡ none =
            ap (λ o. and_then o j.as_str)
              (no_second_path law doc p
                (ap (λ b. ensure {E = Error} (not b) (indirection p)) last)) in
          rw (last, load_level, no_path) refl
    ]

    gates :
        (a b : Bool) (e e' : Error) (r : Result Error j.Value)
        (f g : j.Value → Result Error (Map Text))
        → ((doc : j.Value) → f doc ≡ g doc)
        → (ensure a e >> (ensure b e' >> (r >>= f))) ≡ ((ensure a e >> (ensure b e' >> r)) >>= g)
    gates true true e e' (ok doc) f g h = h doc
    gates true true e e' (err x) f g h = refl
    gates true false e e' r f g h = refl
    gates false b e e' r f g h = refl

    load_level-meaning :
        ArrayIsNoObject → (fuel : ℕ) (v : j.Value) → load_level j w (suc (suc fuel)) v ≡ meaning v
    unfolding load_level
    load_level-meaning law fuel v =
        elim (Option-cases (and_then (field j v (codes "path")) j.as_str)) [
          | inl own ↦ rw (load_level, meaning, own) refl
          | inr (p, named) ↦
              rw (load_level, meaning, named)
                (elim (Option-cases (w.file_at p).stat) [
                  | inl gone ↦ rw gone refl
                  | inr (meta, found) ↦ rw found (
                      gates (is_file meta) (not (ltb (64 * 1048576) meta.len)) (not_regular p)
                        (too_big p) (read_json j p (w.file_at p).contents) _ _
                        (last_level law fuel p))
                ])
        ]

    meaning-IsAnswer : (v : j.Value) → IsAnswer (meaning v)
    meaning-IsAnswer v =
        Option-induction IsAnswer (and_then (field j v (codes "path")) j.as_str) _ _
          (λ _. load_entries-IsAnswer v)
          (λ p _. IsAnswer-bind (open_file p) _ (open_file-IsAnswer p) λ doc _.
            if-induction IsAnswer (names_file doc) _ _ (λ _. tt) (λ _. load_entries-IsAnswer doc))
      where
        open_file-IsAnswer : (p : Text) → IsAnswer (open_file p)
        open_file-IsAnswer p =
            IsAnswer-bind (ok_or (w.file_at p).stat _) _ (ok_or-IsAnswer _ (stat_failed p) tt)
              λ meta _.
                IsAnswer-bind (ensure (is_file meta) _) _ (ensure-IsAnswer _ (not_regular p) tt)
                  λ _ _.
                    IsAnswer-bind (ensure (not (ltb (64 * 1048576) meta.len)) _) _
                      (ensure-IsAnswer _ (too_big p) tt) λ _ _. read_json-IsAnswer p _

    -- Where no JSON array is an object: with any fuel from two levels on, `load_baseline` gives what
    -- the baseline means, which is said without recursion: the entries that it has itself, or those
    -- of the file that it names, once that is a regular file of at most 64 MiB with a JSON document;
    -- a file that names a further file is refused. The answer is never the end of the fuel.
    pub load_baseline-meaning :
        ArrayIsNoObject
        → (fuel : ℕ) (v : j.Value)
        → (load_level j w (suc (suc fuel)) v ≡ meaning v)
          × (load_baseline j w v ≡ meaning v)
          × IsAnswer (load_baseline j w v)
    unfolding load_level load_baseline
    load_baseline-meaning law fuel v =
        let same = load_level-meaning law 0 v in
        (load_level-meaning law fuel v, same, subst IsAnswer (sym same) (meaning-IsAnswer v))
