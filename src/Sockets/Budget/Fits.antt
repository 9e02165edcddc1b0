-- ===== src/Sockets/Budget/Fits.antt =====
-- What `fit_budget` ends with.
use pantheon_tools_catalog.Prelude.{
  ℕ, zero, suc, ◌+◌, ◌-◌, ◌*◌, ap, ◌∙◌, not, retain, List, [], ◌∷◌, ◌/◌, ◌≤◌, ◌≡◌, ◌⊎◌, inl, inr,
  refl, true, false, some, arith, length, take, leb→le, le→leb, ◌==◌, ==_iff, length-take,
  Bool-cases, Option-cases, if-induction, Option-induction,
}
use pantheon_tools_catalog.Sockets.Services.{Listed}
use pantheon_tools_catalog.Sockets.Budget.{
  Shown, output_budget, peers_of, drop_connections, drop_ephemeral, keep_peers, keep_services, fits,
  shrink_peers, shrink_services, without_ephemeral, fit_budget,
}

module _ (size : Shown → ℕ) where
  abbrev Fits : Shown → Type 0
  Fits v = size v ≤ output_budget

  -- The loop over the peers ends by itself: it fits, or no peer is left.
  shrink_peers-done :
      (fuel : ℕ) (v : Shown)
      → length (peers_of v) ≤ fuel
      → Fits (shrink_peers size fuel v) ⊎ (length (peers_of (shrink_peers size fuel v)) ≡ 0)
  unfolding shrink_peers
  shrink_peers-done zero v h = inr (omega arith)
  shrink_peers-done (suc fuel) v h = elim (Bool-cases (fits size v)) [
    | inl small ↦ rw small (inl (leb→le _ _ small))
    | inr big ↦ elim (Bool-cases (length (peers_of v) == 0)) [
      | inl gone ↦ rw (big, gone) (inr ((==_iff _ _).0 gone))
      | inr left ↦
          rw (big, left)
            (shrink_peers-done fuel (keep_peers (length (peers_of v) / 2) v) (fewer left))
    ]
  ]
    where
      fewer :
          (length (peers_of v) == 0) ≡ false
          → length (take (length (peers_of v) / 2) (peers_of v)) ≤ fuel
      fewer left =
          let some_left : 1 ≤ length (peers_of v) = ground arith in
          omega (arith, h, length-take (length (peers_of v) / 2) (peers_of v))

  -- So does the loop over the services.
  shrink_services-done :
      (fuel : ℕ) (v : Shown)
      → length v.services ≤ fuel
      → Fits (shrink_services size fuel v) ⊎ (length (shrink_services size fuel v).services ≡ 0)
  unfolding shrink_services
  shrink_services-done zero v h = inr (omega arith)
  shrink_services-done (suc fuel) v h = elim (Bool-cases (fits size v)) [
    | inl small ↦ rw small (inl (leb→le _ _ small))
    | inr big ↦ elim (Bool-cases (length v.services == 0)) [
      | inl gone ↦ rw (big, gone) (inr ((==_iff _ _).0 gone))
      | inr left ↦
          rw (big, left)
            (shrink_services-done fuel (keep_services (length v.services * 3 / 4) v) (fewer left))
    ]
  ]
    where
      fewer :
          (length v.services == 0) ≡ false
          → length (take (length v.services * 3 / 4) v.services) ≤ fuel
      fewer left =
          let some_left : 1 ≤ length v.services = ground arith in
          omega (arith, h, length-take (length v.services * 3 / 4) v.services)

  -- A loop keeps a predicate that its step keeps.
  shrink_peers_keeps :
      (P : Shown → Type 0)
      → ((n : ℕ) (v : Shown) → P v → P (keep_peers n v))
      → (fuel : ℕ) (v : Shown) → P v
      → P (shrink_peers size fuel v)
  unfolding shrink_peers
  shrink_peers_keeps P k zero v h = h
  shrink_peers_keeps P k (suc fuel) v h =
      if-induction P (fits size v) _ _ (λ _. h)
        (λ _.
          if-induction P (length (peers_of v) == 0) _ _ (λ _. h)
            (λ _. shrink_peers_keeps P k fuel _ (k (length (peers_of v) / 2) v h)))

  shrink_services_keeps :
      (P : Shown → Type 0)
      → ((n : ℕ) (v : Shown) → P v → P (keep_services n v))
      → (fuel : ℕ) (v : Shown) → P v
      → P (shrink_services size fuel v)
  unfolding shrink_services
  shrink_services_keeps P k zero v h = h
  shrink_services_keeps P k (suc fuel) v h =
      if-induction P (fits size v) _ _ (λ _. h)
        (λ _.
          if-induction P (length v.services == 0) _ _ (λ _. h)
            (λ _. shrink_services_keeps P k fuel _ (k (length v.services * 3 / 4) v h)))

  shrink_services-fits :
      (fuel : ℕ) (v : Shown) → fits size v ≡ true → shrink_services size fuel v ≡ v
  unfolding shrink_services
  shrink_services-fits zero v h = refl
  shrink_services-fits (suc fuel) v h = rw h refl

  abbrev NoPeers : Shown → Type 0
  NoPeers v = length (peers_of v) ≡ 0

  peers_of-drop_connections : (v : Shown) → peers_of (drop_connections v) ≡ peers_of v
  peers_of-drop_connections v = elim (Option-cases v.connections) [
    | inl n ↦ rw (drop_connections, n) refl
    | inr (c, s) ↦ rw (drop_connections, s) refl
  ]

  -- The last two steps, from where the first loop ended.
  finish :
      (v : Shown)
      → Fits v ⊎ NoPeers v
      → (let lasting = without_ephemeral size v in
          let end = shrink_services size (length lasting.services) lasting in
          Fits end ⊎ (NoPeers end × (length end.services ≡ 0)))
  finish v (inl small) =
      let s : fits size v ≡ true = le→leb _ _ small in
      rw (s, shrink_services-fits (length v.services) v s) (inl small)
  finish v (inr gone) =
      let lasting = without_ephemeral size v in
      let none_left : NoPeers lasting =
        if-induction NoPeers (fits size v) _ _ (λ _. gone) (λ _. gone) in
      elim (shrink_services-done (length lasting.services) lasting (omega arith)) [
        | inl small ↦ inl small
        | inr empty ↦ inr (
          shrink_services_keeps NoPeers (λ n w h. h) (length lasting.services) lasting none_left,
          empty,
        )
      ]

-- What is printed fits in the budget, or no peer and no service is left in it; both loops come to
-- their end, whatever the length of the text is.
pub fit_budget-Fits :
    (size : Shown → ℕ) (v : Shown)
    → (size (fit_budget size v) ≤ output_budget)
      ⊎ ((length (peers_of (fit_budget size v)) ≡ 0) × (length (fit_budget size v).services ≡ 0))
unfolding fit_budget
fit_budget-Fits size v = elim (Bool-cases (fits size v)) [
  | inl small ↦ rw (fit_budget, small) (inl (leb→le _ _ small))
  | inr big ↦
      let few : length (peers_of (drop_connections v)) ≤ length (peers_of v) =
        rw (peers_of-drop_connections size v) (omega arith) in
      rw (fit_budget, big)
        (finish size (shrink_peers size (length (peers_of v)) (drop_connections v))
          (shrink_peers-done size (length (peers_of v)) (drop_connections v) few))
]

-- What is left of the services, and the marks. The services that listen on an ephemeral port are
-- the ones that may go without the mark of a cut; then their number is given.
abbrev lasting : List Listed → List Listed
lasting = retain (λ (s : Listed). not s.ephemeral_port)

abbrev ephemeral : List Listed → List Listed
ephemeral = retain (λ (s : Listed). s.ephemeral_port)

abbrev pub ServicesMarked : Shown → Shown → Type 0
ServicesMarked before v =
    (v.services ≡ before.services)
    ⊎ ((v.services_truncated ≡ true)
        ⊎ ((v.services ≡ lasting before.services)
            × (v.ephemeral_services_omitted ≡ some (length (ephemeral before.services)))))

-- Each part is as it was, or the result says what was cut.
abbrev pub Marked : Shown → Shown → Type 0
Marked before v =
    ServicesMarked before v
    × ((v.remote_peers ≡ before.remote_peers) ⊎ (v.remote_peers_truncated ≡ true))
    × ((v.connections ≡ before.connections) ⊎ (v.connections_omitted ≡ true))

length-ephemeral : (ss : List Listed) → length ss ≡ length (ephemeral ss) + length (lasting ss)
length-ephemeral [] = refl
length-ephemeral (s ∷ ss) = ground (arith, length-ephemeral ss)

-- What the first loop keeps of the result before it.
abbrev Before : Shown → Shown → Type 0
Before before v =
    (v.services ≡ before.services)
    × ((v.remote_peers ≡ before.remote_peers) ⊎ (v.remote_peers_truncated ≡ true))
    × ((v.connections ≡ before.connections) ⊎ (v.connections_omitted ≡ true))

drop_connections-Before : (v : Shown) → Before v (drop_connections v)
drop_connections-Before v =
    Option-induction (Before v) v.connections _ _ (λ _. (refl, inl refl, inl refl))
      (λ c _. (refl, inl refl, inr refl))

drop_ephemeral-Marked : (before v : Shown) → Before before v → Marked before (drop_ephemeral v)
drop_ephemeral-Marked before v (same, peers, connections) = (
  inr (
      inr (
        ap lasting same,
        ap (λ ss. some (length ss - length (lasting ss))) same
            ∙ ap some (omega (arith, length-ephemeral before.services)),
      )),
  peers,
  connections,
)

-- Nothing is dropped silently. Of the services: they are those before the cut, or `services_truncated`
-- is set, or exactly those on an ephemeral port are gone and their number is given. The peers are as
-- they were or `remote_peers_truncated` is set, and the connections are as they were or
-- `connections_omitted` is set.
pub fit_budget-Marked : (size : Shown → ℕ) (v : Shown) → Marked v (fit_budget size v)
unfolding fit_budget
fit_budget-Marked size v =
    if-induction (Marked v) (fits size v) _ _ (λ _. (inl refl, inl refl, inl refl))
      (λ _.
        shrink_services_keeps size (Marked v) (λ n w h. (inr (inl refl), h.1, h.2)) _ _
          (if-induction (Marked v) (fits size fewer) _ _ (λ _. (inl kept.0, kept.1, kept.2))
            (λ _. drop_ephemeral-Marked v fewer kept)))
  where
    fewer : Shown
    fewer = shrink_peers size (length (peers_of v)) (drop_connections v)

    kept : Before v fewer
    kept =
        shrink_peers_keeps size (Before v) (λ n w h. (h.0, inr refl, h.2)) (length (peers_of v))
          (drop_connections v) (drop_connections-Before v)
