-- ===== src/Rfid/Listing.antt =====
-- The card list as JSON, of components/rfid_manager/rfid_manager.c, against its specification.
use mathlib.Core.List.{append-nil}
use captive_portal_esp.Base.{
  ℕ, ◌+◌, ◌-◌, ◌*◌, ◌%◌, ◌^◌, ◌≤◌, ◌<◌, ◌≡◌, refl, true, false, List, [], ◌∷◌, ◌++◌, ltb, ltb→lt,
  ◌==◌, length, drop, length-append, Bool-cases, inl, inr, arith, drop_all, lt→ltb, some,
}
use captive_portal_esp.Bytes.{Bytes, codes}
use captive_portal_esp.Text.{snprintf, snprintf_lem, zeros, length-decimal_word}
use captive_portal_esp.Esp.{
  EspErr, esp_ok, Env, World, Reliable, take_mutex, give_mutex, malloc, free,
}
use captive_portal_esp.Rfid.Card.{Card}
use captive_portal_esp.Rfid.Represents.{
  Represents, Represents-same, read_database-Represents, read_cards-Represents,
}
use captive_portal_esp.Rfid.Json.{opening, room_left, print_cards, close_list, get_card_list_json}
use captive_portal_esp.Rfid.Entries.{
  Terminated, entries, list_text, complete, Printed, print_cards-Printed,
}

length-opening : (count : ℕ) → count < 2 ^ 16 → length (opening count) ≤ 38
length-opening count h = simp length-append (omega (arith, length-decimal_word count h))

-- What a caller with room for `max` bytes finds: the text of the cards shown, and zeros.
abbrev pub Listed : ℕ → List Card → EspErr × Bytes → Type 0
Listed max cards (result, buffer) =
    (shown : List Card) × (hidden : List Card) × (cards ≡ shown ++ hidden)
    × (result ≡ complete hidden)
    × (length (list_text (length cards) shown) < max)
    × (buffer
        ≡ list_text (length cards) shown ++ zeros (max - length (list_text (length cards) shown)))
    × (95 * length cards + 44 ≤ max → hidden ≡ [])

close_list_lem :
    (max : ℕ) (result : EspErr) (before : Bytes)
    → max < 2 ^ 16
    → length before + 6 ≤ max
    → close_list max result (length before) (before ++ zeros (max - length before))
      ≡ (result, (before ++ codes "]}") ++ zeros (max - length (before ++ codes "]}")))
unfolding close_list
close_list_lem max result before small room =
    let space : ltb (length before + 3) max ≡ true = lt→ltb _ _ (omega arith) in
    let room_is : room_left max (length before) ≡ max - length before = omega arith in
    let closing : Bytes = codes "]}" in
    let put =
      snprintf_lem before closing (max - length before) (max - length before) (omega arith)
        (omega arith) in
    let longer = length-append before closing in
    let left : max - length before - 2 ≡ max - length (before ++ closing) = omega arith in
    rw (space, room_is, put) (rw left refl)

Listed-close :
    (max : ℕ) (cards : List Card) (out : EspErr × (ℕ × Bytes))
    → max < 2 ^ 16
    → length cards < 2 ^ 16
    → Printed max (opening (length cards)) false cards out
    → Listed max cards (close_list max out.0 out.1.0 out.1.1)
unfolding list_text
Listed-close max cards out small few p =
    let before = opening (length cards) ++ entries false p.shown in
    let done = close_list_lem max (complete p.hidden) before small p.fits in
    let closing : Bytes = codes "]}" in
    let longer = length-append before closing in
    rw (p.result, p.len, p.buffer, done)
      (
        p.shown,
        p.hidden,
        p.split,
        refl,
        omega (arith, p.fits),
        refl,
        λ h. p.all (omega (arith, h, length-opening (length cards) few)),
      )

Listed-empty :
    (max : ℕ) (cards : List Card)
    → max < 2 ^ 16
    → length cards < 2 ^ 16
    → 64 ≤ max
    → ltb 0 (length cards) ≡ false
    → Listed max cards (
        close_list max esp_ok
          (length (opening (length cards)))
          (opening (length cards) ++ zeros (max - length (opening (length cards)))))
unfolding print_cards
Listed-empty max [] small few big h =
    Listed-close max [] _ small few (
      print_cards-Printed max [] false (opening 0) tt tt small
        (omega (arith, length-opening 0 few)))
Listed-empty max (c ∷ cs) small few big h = absurd (ground arith)

module _ {env : Env} (rel : Reliable env) where
  pub get_card_list_json-Listed :
      {max : ℕ} (cards : List Card) (w : World) (buffer : Bytes) (capacity : ℕ)
      → Represents max cards w
      → Terminated cards
      → length buffer ≡ capacity
      → 64 ≤ capacity
      → capacity < 2 ^ 16
      → Listed capacity cards (get_card_list_json env (some buffer) capacity w).0
        × Represents max cards (get_card_list_json env (some buffer) capacity w).1
  unfolding get_card_list_json take_mutex give_mutex malloc free print_cards entries
  get_card_list_json-Listed {max} cards w buffer capacity r ends size big small =
      let nonzero : (capacity == 0) ≡ false = ground arith in
      let whole : drop capacity buffer ≡ [] = drop_all capacity buffer (omega arith) in
      let w1 = record w {
        tick = w.tick + 1;
        usage = record w.usage { takes = w.usage.takes + 1 };
      } in
      let (t, e) = read_database-Represents rel cards w1 (Represents-same r refl) in
      let first = opening (length cards) in
      let few : length cards < 2 ^ 16 = omega (arith, r.room, r.max_range) in
      let short = length-opening (length cards) few in
      let begun : snprintf (zeros capacity) 0 capacity first
          ≡ (first ++ zeros (capacity - length first), length first) =
        snprintf_lem [] first capacity capacity (omega arith) (omega arith) in
      let counted : length first % 2 ^ 16 ≡ length first = omega arith in
      let p = print_cards-Printed capacity cards false first r.fits ends small (omega arith) in
      rw
        (nonzero, rel.semaphore_taken w.tick, e, whole, append-nil (zeros capacity), begun, counted)
        (elim (Bool-cases (ltb 0 (length cards))) [
          | inr none_there ↦
              rw none_there
                (Listed-empty capacity cards small few big none_there, Represents-same r refl)
          | inl some_there ↦
              let w2 = record w1 {
                tick = t + 1;
                usage = record w1.usage { mallocs = w1.usage.mallocs + 1 };
              } in
              let (t2, e2) =
                read_cards-Represents rel cards w2 (Represents-same r refl)
                  (ltb→lt _ _ some_there) in
              rw (some_there, rel.malloc_ok t, e2)
                (Listed-close capacity cards _ small few p, Represents-same r refl)
        ])
