-- ===== src/Rfid/Faults/Behind.antt =====
-- `rfid_manager_add_card` of components/rfid_manager/rfid_manager.c behind a removal that failed halfway.
use mathlib.Core.List.{append_assoc}
use captive_portal_esp.Base.{
  ℕ, ◌+◌, ◌^◌, ◌<◌, ◌≡◌, refl, ap, ◌∙◌, some, List, [], ◌∷◌, ◌++◌, ◌==◌, ltb, ltb→lt, length,
  tabulate, length-append, Bool-cases, inl, inr, arith,
}
use captive_portal_esp.Bytes.{Bytes}
use captive_portal_esp.Esp.{
  Env, World, Whole, EspErr, esp_ok, malloc, take_mutex, give_mutex, free, uninitialised,
}
use captive_portal_esp.Storage.{content}
use captive_portal_esp.Rfid.Card.{Card, FitsCard, encode_database, encode_cards}
use captive_portal_esp.Rfid.Layout.{encode_cards-append}
use captive_portal_esp.Rfid.Represents.{header}
use captive_portal_esp.Rfid.Store.{db_path, cards_path}
use captive_portal_esp.Rfid.Manage.{
  find_card, is_found, new_card, one_more, append_card, add_unless_present, add_card,
}
use captive_portal_esp.Rfid.Add.{new_card-FitsCard, FitsCards-append}
use captive_portal_esp.Rfid.Faults.{
  Shows, Shows-same, read_database-Reads, read_cards-Reads, write_database-Writes,
  append_cards-Writes, with_database,
}

-- If the call succeeds, the files show the first of the cards that were left behind, and the new card stands
-- behind the others.
abbrev pub ShowsLeft : ℕ → List Card → Card → List Card → ℕ → Bytes → EspErr × World → Type 0
ShowsLeft max cards lost others card_id name (r, w') =
    r ≡ esp_ok
    → (padding : Bytes) × (now : ℕ) × Shows max (cards ++ lost ∷ [])
        (encode_cards (others ++ new_card card_id name padding now ∷ [])) w'

module _ {env : Env} (whole : Whole env) {max : ℕ} (cards : List Card) (lost : Card)
    (others : List Card) (lost_fits : FitsCard lost) (card_id : ℕ) (name : Bytes)
    (id_range : card_id < 2 ^ 32) where
  Shows-one_more :
      (w : World) (r : Shows max cards (encode_cards (lost ∷ others)) w) (card : Card) (w' : World)
      → length cards < max
      → w'.files db_path ≡ some (encode_database (one_more (header (length cards) max r.checksum)))
      → content (w'.files cards_path) ≡ content (w.files cards_path) ++ encode_cards (card ∷ [])
      → Shows max (cards ++ lost ∷ []) (encode_cards (others ++ card ∷ [])) w'
  unfolding encode_cards
  Shows-one_more w r card w' below database body =
      let longer = length-append cards (lost ∷ []) in
      record {
        checksum = r.checksum;
        sum_range = r.sum_range;
        max_range = r.max_range;
        count_range = omega (arith, longer, below, r.max_range);
        fits = FitsCards-append cards lost r.fits lost_fits;
        database =
            database
            ∙ ap {A = ℕ} (λ n. some (encode_database (header n max r.checksum)))
                (omega (arith, longer, below, r.max_range));
        body =
            body
            ∙ ap (λ b. b ++ encode_cards (card ∷ [])) r.body
            ∙ (simp (encode_cards-append, append_assoc));
      }

  append_card-ShowsLeft :
      (w : World) (r : Shows max cards (encode_cards (lost ∷ others)) w)
      → ShowsLeft max cards lost others card_id name
          (append_card env (header (length cards) max r.checksum) card_id name w)
  unfolding append_card uninitialised give_mutex
  append_card-ShowsLeft w r = elim (Bool-cases (ltb (length cards) max)) [
    | inr full ↦ rw full (λ ok. cc ok)
    | inl room ↦
        let padding : Bytes = tabulate 3 (env.garbage w.tick) 0 in
        let now = env.time (w.tick + 1) in
        let card = new_card card_id name padding now in
        let db = header (length cards) max r.checksum in
        let w1 = record w { tick = w.tick + 1 + 1 } in
        let fits = new_card-FitsCard card_id name padding now id_range refl in
        let (t1, counted) = write_database-Writes whole (one_more db) w1 in
        elim counted [
          | inr e1 ↦ rw (room, e1) (λ ok. cc ok)
          | inl e1 ↦
              let w2 = record (with_database (one_more db) w1) { tick = t1 } in
              let (t2, appended) =
                append_cards-Writes whole (card ∷ []) w2 (fits, tt) (omega arith) in
              elim appended [
                | inl e2 ↦
                    rw (room, e1, e2)
                      (λ ok. (
                        padding,
                        now,
                        Shows-one_more w r card _ (ltb→lt (length cards) max room) refl refl,
                      ))
                | inr e2 ↦ rw (room, e1, e2) (λ ok. cc ok)
              ]
        ]
  ]

  add_unless_present-ShowsLeft :
      (w : World) (r : Shows max cards (encode_cards (lost ∷ others)) w)
      → ShowsLeft max cards lost others card_id name
          (add_unless_present env (header (length cards) max r.checksum) card_id name w)
  unfolding add_unless_present malloc free give_mutex
  add_unless_present-ShowsLeft w r = elim (Bool-cases (length cards == 0)) [
    | inl empty ↦ rw empty (append_card-ShowsLeft w r)
    | inr some_cards ↦ elim (Bool-cases (env.malloc_ok w.tick)) [
      | inr no_room ↦ rw (some_cards, no_room) (λ ok. cc ok)
      | inl got ↦
          let w1 = record w {
            tick = w.tick + 1;
            usage = record w.usage { mallocs = w.usage.mallocs + 1 };
          } in
          let (t, read) = read_cards-Reads whole w1 (Shows-same r refl) (ground arith) in
          elim read [
            | inr (garbage, e) ↦ rw (some_cards, got, e) (λ ok. cc ok)
            | inl e ↦
                let w2 = record w1 {
                  tick = t;
                  usage = record w1.usage { frees = w1.usage.frees + 1 };
                } in
                rw (some_cards, got, e)
                  (elim (Bool-cases (is_found (find_card card_id cards))) [
                    | inl there ↦ rw there (λ ok. cc ok)
                    | inr absent ↦ rw absent (append_card-ShowsLeft w2 (Shows-same r refl))
                  ])
          ]
    ]
  ]

  add_card-ShowsLeft :
      (w : World)
      → Shows max cards (encode_cards (lost ∷ others)) w
      → ShowsLeft max cards lost others card_id name (add_card env card_id (some name) w)
  unfolding add_card take_mutex give_mutex
  add_card-ShowsLeft w r = elim (Bool-cases (env.semaphore_taken w.tick)) [
    | inr refused ↦ rw refused (λ ok. cc ok)
    | inl taken ↦
        let w1 = record w {
          tick = w.tick + 1;
          usage = record w.usage { takes = w.usage.takes + 1 };
        } in
        let (t, read) = read_database-Reads whole w1 (Shows-same r refl) in
        elim read [
          | inl e ↦ rw (taken, e) (add_unless_present-ShowsLeft _ (Shows-same r refl))
          | inr (db, e) ↦ rw (taken, e) (λ ok. cc ok)
        ]
  ]

  -- Where any call may fail but no read or write is short, on files whose cards file goes on
  -- behind the cards counted, as a removal that failed halfway leaves it: a card that is added
  -- with ESP_OK is not the next one counted; the first card left behind is, and the new card
  -- stands behind all others.
  pub add_card-Shows :
      (w : World)
      → Shows max cards (encode_cards (lost ∷ others)) w
      → (add_card env card_id (some name) w).0 ≡ esp_ok
      → (padding : Bytes) × (now : ℕ) × Shows max
          (cards ++ lost ∷ [])
          (encode_cards (others ++ new_card card_id name padding now ∷ []))
          (add_card env card_id (some name) w).1
  add_card-Shows w r ok = add_card-ShowsLeft w r ok
