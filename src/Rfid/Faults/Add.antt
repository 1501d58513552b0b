-- ===== src/Rfid/Faults/Add.antt =====
-- `rfid_manager_add_card` of components/rfid_manager/rfid_manager.c where calls may fail.
use captive_portal_esp.Base.{
  ℕ, ◌+◌, ◌^◌, ◌<◌, ◌≡◌, refl, ap, ◌∙◌, false, some, List, [], ◌∷◌, ◌++◌, ◌==◌, ltb, ltb→lt, length,
  tabulate, length-append, Bool-cases, ==_iff, inl, inr, ◌⊎◌, arith,
}
use captive_portal_esp.Bytes.{Bytes}
use captive_portal_esp.Esp.{
  Env, World, Whole, EspErr, esp_fail, no_mem, malloc, take_mutex, give_mutex, free, uninitialised,
}
use captive_portal_esp.Storage.{content}
use captive_portal_esp.Rfid.Card.{Card, encode_database, encode_cards}
use captive_portal_esp.Rfid.Represents.{Represents, Represents-same, header}
use captive_portal_esp.Rfid.Store.{db_path, cards_path}
use captive_portal_esp.Rfid.Manage.{
  find_card, is_found, new_card, one_more, one_less, append_card, add_unless_present, add_card,
}
use captive_portal_esp.Rfid.Add.{Adds, new_card-FitsCard, Represents-appended, find_card_empty}
use captive_portal_esp.Rfid.Faults.{
  Represents-Shows, read_database-Reads, read_cards-Reads, write_database-Writes,
  append_cards-Writes, with_database,
}

-- The header counts one card more than the other file has.
pub record Overcounts (max : ℕ) (cards : List Card) (w : World) : Type 0 where
  pub checksum : ℕ
  pub database : w.files db_path ≡ some (encode_database (header (length cards + 1) max checksum))
  pub body : content (w.files cards_path) ≡ encode_cards cards

-- The call did as specified; or it failed, and the files stay what they were; or it failed and the header
-- counts one card too many.
abbrev pub AddsOrFails : ℕ → List Card → ℕ → Bytes → EspErr × World → Type 0
AddsOrFails max cards card_id name (r, w') =
    Adds max cards card_id name (r, w')
    ⊎ ((((r ≡ esp_fail) ⊎ (r ≡ no_mem)) × Represents max cards w')
        ⊎ ((r ≡ esp_fail) × Overcounts max cards w'))

module _ {env : Env} (whole : Whole env) {max : ℕ} (cards : List Card) (card_id : ℕ) (name : Bytes)
    (id_range : card_id < 2 ^ 32) where
  Represents-reverted :
      (w : World) (r : Represents max cards w) (w' : World)
      → length cards < max
      → w'.files db_path
        ≡ some (encode_database (one_less (one_more (header (length cards) max r.checksum))))
      → content (w'.files cards_path) ≡ content (w.files cards_path)
      → Represents max cards w'
  Represents-reverted w r w' below database body = record {
    checksum = r.checksum;
    sum_range = r.sum_range;
    max_range = r.max_range;
    room = r.room;
    fits = r.fits;
    database =
        database
        ∙ ap {A = ℕ} (λ n. some (encode_database (header n max r.checksum)))
            (omega (arith, below, r.max_range));
    body = body ∙ r.body;
  }

  Overcounts-one_more :
      (w : World) (r : Represents max cards w) (w' : World)
      → length cards < max
      → w'.files db_path ≡ some (encode_database (one_more (header (length cards) max r.checksum)))
      → content (w'.files cards_path) ≡ content (w.files cards_path)
      → Overcounts max cards w'
  Overcounts-one_more w r w' below database body = record {
    checksum = r.checksum;
    database =
        database
        ∙ ap {A = ℕ} (λ n. some (encode_database (header n max r.checksum)))
            (omega (arith, below, r.max_range));
    body = body ∙ r.body;
  }

  append_card-AddsOrFails :
      (w : World) (r : Represents max cards w)
      → is_found (find_card card_id cards) ≡ false
      → AddsOrFails max cards card_id name
          (append_card env (header (length cards) max r.checksum) card_id name w)
  unfolding append_card uninitialised give_mutex
  append_card-AddsOrFails w r absent = elim (Bool-cases (ltb (length cards) max)) [
    | inr full ↦ inl ([], 0, rw (absent, full) (refl, Represents-same r refl))
    | inl room ↦
        let padding : Bytes = tabulate 3 (env.garbage w.tick) 0 in
        let now = env.time (w.tick + 1) in
        let card = new_card card_id name padding now in
        let db = header (length cards) max r.checksum in
        let w1 = record w { tick = w.tick + 1 + 1 } in
        let fits = new_card-FitsCard card_id name padding now id_range refl in
        let longer : length (cards ++ card ∷ []) ≡ length cards + 1 =
          length-append cards (card ∷ []) in
        let below = ltb→lt (length cards) max room in
        let (t1, counted) = write_database-Writes whole (one_more db) w1 in
        elim counted [
          | inr e1 ↦ inr (inl (rw (room, e1) (inl refl, Represents-same r refl)))
          | inl e1 ↦
              let w2 = record (with_database (one_more db) w1) { tick = t1 } in
              let (t2, appended) =
                append_cards-Writes whole (card ∷ []) w2 (fits, tt) (omega arith) in
              elim appended [
                | inl e2 ↦ inl (
                  padding,
                  now,
                  rw (absent, room, e1, e2)
                      (refl, Represents-appended cards card fits below w r _ refl refl),
                )
                | inr e2 ↦
                    let w3 = record w2 { tick = t2 } in
                    let (t3, reverted) = write_database-Writes whole (one_less (one_more db)) w3 in
                    elim reverted [
                      | inl e3 ↦ inr (
                          inl (
                            inl (rw (room, e1, e2) refl),
                            rw (room, e1, e2, e3) (Represents-reverted w r _ below refl refl),
                          ))
                      | inr e3 ↦ inr (
                          inr (
                            rw (room, e1, e2) refl,
                            rw (room, e1, e2, e3) (Overcounts-one_more w r _ below refl refl),
                          ))
                    ]
              ]
        ]
  ]

  add_unless_present-AddsOrFails :
      (w : World) (r : Represents max cards w)
      → AddsOrFails max cards card_id name
          (add_unless_present env (header (length cards) max r.checksum) card_id name w)
  unfolding add_unless_present malloc free give_mutex
  add_unless_present-AddsOrFails w r = elim (Bool-cases (length cards == 0)) [
    | inl empty ↦
        rw empty
          (append_card-AddsOrFails w r (find_card_empty card_id cards ((==_iff _ _).0 empty)))
    | inr some_cards ↦ elim (Bool-cases (env.malloc_ok w.tick)) [
      | inr no_room ↦ inr (inl (rw (some_cards, no_room) (inr refl, Represents-same r refl)))
      | inl got ↦
          let w1 = record w {
            tick = w.tick + 1;
            usage = record w.usage { mallocs = w.usage.mallocs + 1 };
          } in
          let (t, read) =
            read_cards-Reads whole w1 (Represents-Shows (Represents-same r refl)) (ground arith) in
          elim read [
            | inr (others, e) ↦
                inr (inl (rw (some_cards, got, e) (inl refl, Represents-same r refl)))
            | inl e ↦
                let w2 = record w1 {
                  tick = t;
                  usage = record w1.usage { frees = w1.usage.frees + 1 };
                } in
                rw (some_cards, got, e)
                  (elim (Bool-cases (is_found (find_card card_id cards))) [
                    | inl there ↦ inl ([], 0, rw there (refl, Represents-same r refl))
                    | inr absent ↦
                        rw absent (
                          rw absent at (append_card-AddsOrFails w2 (Represents-same r refl) absent))
                  ])
          ]
    ]
  ]

  -- Where any call may fail but no read or write is short: adding a card does what the list
  -- specification says; or it answers ESP_FAIL or ESP_ERR_NO_MEM and the files still represent the
  -- list; or it answers ESP_FAIL and the header counts one card more than the cards file has.
  pub add_card-AddsOrFails :
      (w : World)
      → Represents max cards w
      → AddsOrFails max cards card_id name (add_card env card_id (some name) w)
  unfolding add_card take_mutex give_mutex
  add_card-AddsOrFails w r = elim (Bool-cases (env.semaphore_taken w.tick)) [
    | inr refused ↦ inr (inl (rw refused (inl refl, Represents-same r refl)))
    | inl taken ↦
        let w1 = record w {
          tick = w.tick + 1;
          usage = record w.usage { takes = w.usage.takes + 1 };
        } in
        let (t, read) = read_database-Reads whole w1 (Represents-Shows (Represents-same r refl)) in
        elim read [
          | inl e ↦ rw (taken, e) (add_unless_present-AddsOrFails _ (Represents-same r refl))
          | inr (db, e) ↦ inr (inl (rw (taken, e) (inl refl, Represents-same r refl)))
        ]
  ]
