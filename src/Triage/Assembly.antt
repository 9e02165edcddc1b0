-- ===== src/Triage/Assembly.antt =====
-- The last loop of `run` of tools/log-triage/src/main.rs, over the three buckets.
use pantheon_tools_catalog.Prelude.{
  ℕ, zero, suc, ◌-◌, ◌≤◌, ◌≡◌, refl, sym, ap, ◌∙◌, List, [], ◌∷◌, ◌++◌, arith, length, take,
  flat_map, min, leb, leb→le, leb-false, ◌==◌, Bool-cases, inl, inr, take_all, take_full,
  take-take_le, take-append-take, append-nil, append_assoc, length-take,
}
use pantheon_tools_catalog.Triage.Acc.{high, medium, info, Finding}
use pantheon_tools_catalog.Triage.Log.{with_severity}
use pantheon_tools_catalog.Triage.Report.{assemble}

-- High findings first, then medium ones, then the others, each in the order of their finding.
abbrev pub by_severity : List Finding → List Finding
by_severity log = with_severity high log ++ (with_severity medium log ++ with_severity info log)

take-append :
    (n : ℕ) (xs ys : List Finding)
    → length xs ≤ n
    → take n (xs ++ ys) ≡ xs ++ take (n - length xs) ys
take-append n [] ys h = ap (λ k. take k ys) (omega arith)
take-append zero (x ∷ xs) ys h = absurd (omega arith)
take-append (suc n) (x ∷ xs) ys h =
    ap (λ l. x ∷ l) (take-append n xs ys (omega arith) ∙ ap (λ k. xs ++ take k ys) (omega arith))

take_nil : (k : ℕ) → ◌≡◌ {A = List Finding} (take k []) []
take_nil zero = refl
take_nil (suc k) = refl

take-min : (n : ℕ) (xs : List Finding) → take (min n (length xs)) xs ≡ take n xs
take-min n xs = elim (Bool-cases (leb n (length xs))) [
  | inl below ↦ let e : min n (length xs) ≡ n = omega (arith, leb→le, below) in rw e refl
  | inr above ↦
      let e : min n (length xs) ≡ length xs = omega (arith, leb-false, above) in
      rw (e, take_all (length xs) xs (omega arith))
        (sym (take_all n xs (omega (arith, leb-false, above))))
]

-- The loop over the buckets cuts their concatenation.
pub assemble-take :
    (n : ℕ) (buckets : List (List Finding)) (out : List Finding)
    → length out ≤ n
    → assemble n buckets out ≡ take n (out ++ flat_map (λ b. b) buckets)
unfolding assemble
assemble-take n [] out h = rw append-nil (sym (take_all n out h))
assemble-take n (b ∷ bs) out h = elim (Bool-cases (n - length out == 0)) [
  | inl full ↦
      let long : n ≤ length out = ground arith in
      rw full (sym (take_full n out (b ++ flat_map (λ x. x) bs) long ∙ take_all n out h))
  | inr room ↦
      let more : out ++ take (min (n - length out) (length b)) b ≡ take n (out ++ b) =
        ap (λ l. out ++ l) (take-min (n - length out) b) ∙ sym (take-append n out b h) in
      rw (room, more)
        (assemble-take n bs (take n (out ++ b)) (omega (arith, length-take n (out ++ b)))
          ∙ take-append-take n (out ++ b) (flat_map (λ x. x) bs)
          ∙ ap (take n) (append_assoc out b (flat_map (λ x. x) bs)))
]

-- A cut of the tail that leaves enough.
take-append_take :
    (m n : ℕ) (xs ys : List Finding) → m ≤ n → take m (xs ++ take n ys) ≡ take m (xs ++ ys)
take-append_take m n [] ys h = take-take_le m n ys h
take-append_take zero n (x ∷ xs) ys h = refl
take-append_take (suc m) n (x ∷ xs) ys h =
    ap (λ l. x ∷ l) (take-append_take m n xs ys (omega arith))

-- What is assembled of buckets that were cut themselves.
pub assemble-cut :
    (n : ℕ) (a b c : List Finding)
    → assemble n (take n a ∷ take n b ∷ take n c ∷ []) [] ≡ take n (a ++ (b ++ c))
assemble-cut n a b c =
    assemble-take n (take n a ∷ take n b ∷ take n c ∷ []) [] (omega arith)
    ∙ take-append-take n a (take n b ++ (take n c ++ []))
    ∙ rw (append-nil, sym (append_assoc a (take n b) (take n c)))
        (take-append_take n n (a ++ take n b) c (omega arith)
          ∙ rw (append_assoc a (take n b) c) (
              sym (take-append_take n n a (take n b ++ c) (omega arith))
              ∙ ap (λ l. take n (a ++ l)) (take-append-take n b c)
              ∙ take-append_take n n a (b ++ c) (omega arith)))
