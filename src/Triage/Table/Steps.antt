-- ===== src/Triage/Table/Steps.antt =====
-- The table after each sight of an address.
use pantheon_tools_catalog.Prelude.{
  ◌+◌, ◌%◌, ◌^◌, ◌≡◌, refl, sym, ap, ◌∙◌, subst, true, false, ◌||◌, none, some, List, [], ◌∷◌, ◌++◌,
  length, length-append, append-nil, append_assoc, foldl, ltb, arith, Bool-cases, inl, inr,
  if◌then◌else◌,
}
use pantheon_tools_catalog.Text.{Text, text_eq}
use pantheon_tools_catalog.Text.Order.{text_eq→≡, text_eq_refl}
use pantheon_tools_catalog.Map.{Map, get, insert}
use pantheon_tools_catalog.Map.Sorted.{insert-IsSorted, length-insert_present, length-insert_absent}
use pantheon_tools_catalog.Triage.Acc.{IpStat}
use pantheon_tools_catalog.Triage.Scan.{max_distinct_ips}
use pantheon_tools_catalog.Triage.Sights.{Sight, first_stat, once_more, note}
use pantheon_tools_catalog.Triage.Table.{
  Holds, of_ip-same, of_ip-other, expected-listed, expected-unlisted, expected-other, listed-same,
  seen_still, note-old, note-new, found_after, listed-append, tracked, of_ip, listed, expected,
  stat_of, IsTable,
}

-- An address that is kept already is counted once more.
step_kept :
    (kept : List Text) (seen : List Sight) (m : Map IpStat) (s : Sight)
    → Holds kept seen m
    → listed s.ip kept ≡ true
    → Holds kept (seen ++ s ∷ []) (note m s)
step_kept kept seen m s h here =
    let (first, rest, e) = h.none_empty s.ip here in
    let st : IpStat = record {
      count = length (first ∷ rest) % 2 ^ 64;
      first_path = first.path;
      first_line = first.line;
      first_excerpt = first.excerpt;
    } in
    let got : get s.ip m ≡ some st =
      h.found s.ip ∙ expected-listed kept seen s.ip here ∙ ap stat_of e in
    let counted : (length (first ∷ rest) % 2 ^ 64 + 1) % 2 ^ 64
        ≡ length (first ∷ (rest ++ s ∷ [])) % 2 ^ 64 =
      omega (arith, length-append rest (s ∷ [])) in
    let all_of : of_ip s.ip (seen ++ s ∷ []) ≡ first ∷ (rest ++ s ∷ []) =
      of_ip-same s s.ip seen (text_eq_refl s.ip) ∙ ap (λ l. l ++ s ∷ []) e in
    let right : some (once_more st) ≡ expected kept (seen ++ s ∷ []) s.ip =
      ap (λ k. some (record st { count = k })) counted
      ∙ ap stat_of (sym all_of)
      ∙ sym (expected-listed kept (seen ++ s ∷ []) s.ip here) in
    subst (Holds kept (seen ++ s ∷ [])) (sym (note-old m s st got)) (record {
      sorted = insert-IsSorted s.ip (once_more st) m h.sorted;
      size = length-insert_present s.ip (once_more st) st m h.sorted got ∙ h.size;
      found = found_after kept kept seen m s (once_more st) h.found right (λ ip other. refl);
      none_lost = λ room ip lost. elim (Bool-cases (text_eq s.ip ip)) [
        | inl same ↦ absurd (ground (arith, sym here ∙ sym (listed-same s.ip ip kept same) ∙ lost))
        | inr other ↦ of_ip-other s ip seen other ∙ h.none_lost room ip lost
      ];
      none_empty = λ ip l. seen_still seen s ip (h.none_empty ip l);
    })

-- A new address is put into the table.
step_new :
    (kept : List Text) (seen : List Sight) (m : Map IpStat) (s : Sight)
    → Holds kept seen m
    → listed s.ip kept ≡ false
    → ltb (length kept) max_distinct_ips ≡ true
    → Holds (kept ++ s.ip ∷ []) (seen ++ s ∷ []) (note m s)
step_new kept seen m s h here room =
    let got : get s.ip m ≡ none = h.found s.ip ∙ expected-unlisted kept seen s.ip here in
    let fits : ltb (length m) max_distinct_ips ≡ true =
      ap (λ n. ltb n max_distinct_ips) h.size ∙ room in
    let put : note m s ≡ insert s.ip (first_stat s) m =
      note-new m s got ∙ ap (λ b. if b then insert s.ip (first_stat s) m else m) fits in
    let kept' : List Text = kept ++ s.ip ∷ [] in
    let now : listed s.ip kept' ≡ true =
      listed-append s.ip s.ip kept ∙ ap (λ b. b || text_eq s.ip s.ip) here ∙ text_eq_refl s.ip in
    let only : of_ip s.ip (seen ++ s ∷ []) ≡ s ∷ [] =
      of_ip-same s s.ip seen (text_eq_refl s.ip)
      ∙ ap (λ l. l ++ s ∷ []) (h.none_lost room s.ip here) in
    let others : (ip : Text) → text_eq s.ip ip ≡ false → listed ip kept' ≡ listed ip kept =
      λ ip other. ground (arith, listed-append ip s.ip kept, other) in
    let right : some (first_stat s) ≡ expected kept' (seen ++ s ∷ []) s.ip =
      ap (λ k. some (record (first_stat s) { count = k })) (omega arith)
      ∙ ap stat_of (sym only)
      ∙ sym (expected-listed kept' (seen ++ s ∷ []) s.ip now) in
    subst (Holds kept' (seen ++ s ∷ [])) (sym put) (record {
      sorted = insert-IsSorted s.ip (first_stat s) m h.sorted;
      size = omega (
        arith,
        length-insert_absent s.ip (first_stat s) m got,
        h.size,
        length-append kept (s.ip ∷ []),
      );
      found = found_after kept kept' seen m s (first_stat s) h.found right others;
      none_lost = λ _ ip lost. elim (Bool-cases (text_eq s.ip ip)) [
        | inl same ↦ absurd (ground (arith, sym now ∙ sym (listed-same s.ip ip kept' same) ∙ lost))
        | inr other ↦
            of_ip-other s ip seen other ∙ h.none_lost room ip (sym (others ip other) ∙ lost)
      ];
      none_empty = λ ip l. elim (Bool-cases (text_eq s.ip ip)) [
        | inl same ↦
            subst (λ x. (a : Sight) × (rest : List Sight) × (of_ip x (seen ++ s ∷ []) ≡ a ∷ rest))
              (text_eq→≡ s.ip ip same) (s, [], only)
        | inr other ↦ seen_still seen s ip (h.none_empty ip (sym (others ip other) ∙ l))
      ];
    })

-- A new address is left out of a full table.
step_full :
    (kept : List Text) (seen : List Sight) (m : Map IpStat) (s : Sight)
    → Holds kept seen m
    → listed s.ip kept ≡ false
    → ltb (length kept) max_distinct_ips ≡ false
    → Holds kept (seen ++ s ∷ []) (note m s)
step_full kept seen m s h here full =
    let got : get s.ip m ≡ none = h.found s.ip ∙ expected-unlisted kept seen s.ip here in
    let over : ltb (length m) max_distinct_ips ≡ false =
      ap (λ n. ltb n max_distinct_ips) h.size ∙ full in
    let left : note m s ≡ m =
      note-new m s got ∙ ap (λ b. if b then insert s.ip (first_stat s) m else m) over in
    subst (Holds kept (seen ++ s ∷ [])) (sym left) (record {
      sorted = h.sorted;
      size = h.size;
      found = λ ip. elim (Bool-cases (text_eq s.ip ip)) [
        | inl same ↦
            let gone = listed-same s.ip ip kept same ∙ here in
            h.found ip
            ∙ expected-unlisted kept seen ip gone
            ∙ sym (expected-unlisted kept (seen ++ s ∷ []) ip gone)
        | inr other ↦ h.found ip ∙ sym (expected-other kept seen s ip other)
      ];
      none_lost = λ room ip lost. absurd (ground (arith, sym full ∙ room));
      none_empty = λ ip l. seen_still seen s ip (h.none_empty ip l);
    })

notes-Holds :
    (kept : List Text) (seen rest : List Sight) (m : Map IpStat)
    → Holds kept seen m
    → Holds (tracked kept rest) (seen ++ rest) (foldl note m rest)
notes-Holds kept seen [] m h = rw append-nil h
notes-Holds kept seen (s ∷ rest) m h =
    subst (λ l. Holds (tracked kept (s ∷ rest)) l (foldl note (note m s) rest))
      (append_assoc seen (s ∷ []) rest)
      (elim (Bool-cases (listed s.ip kept)) [
        | inl here ↦
            rw (tracked, here)
              (notes-Holds kept (seen ++ s ∷ []) rest (note m s) (step_kept kept seen m s h here))
        | inr here ↦ elim (Bool-cases (ltb (length kept) max_distinct_ips)) [
          | inl room ↦
              rw (tracked, here, room)
                (notes-Holds (kept ++ s.ip ∷ []) (seen ++ s ∷ []) rest (note m s)
                  (step_new kept seen m s h here room))
          | inr full ↦
              rw (tracked, here, full)
                (notes-Holds kept (seen ++ s ∷ []) rest (note m s)
                  (step_full kept seen m s h here full))
        ]
      ])

pub notes-IsTable : (sights : List Sight) → IsTable sights (foldl note [] sights)
unfolding get
notes-IsTable sights =
    let h = notes-Holds [] [] sights [] (record {
      sorted = tt;
      size = refl;
      found = λ ip. refl;
      none_lost = λ _ ip _. refl;
      none_empty = λ ip l. absurd (ground (arith, l));
    }) in
    (h.sorted, h.found)
