-- ===== src/Rfid/Faults/Remove.antt =====
-- `rfid_manager_remove_card` of components/rfid_manager/rfid_manager.c where calls may fail.
use captive_portal_esp.Base.{
  ℕ, ◌+◌, ◌≡◌, refl, false, some, List, ◌==◌, length, Bool-cases, Option-cases, ==_iff, inl, inr,
  ◌⊎◌, arith,
}
use captive_portal_esp.Esp.{
  Env, World, Whole, EspErr, esp_fail, no_mem, malloc, take_mutex, give_mutex, free,
}
use captive_portal_esp.Rfid.Card.{Card, encode_cards}
use captive_portal_esp.Rfid.Layout.{length-encode_cards}
use captive_portal_esp.Rfid.Opened.{eq_some-content}
use captive_portal_esp.Rfid.Represents.{Represents, Represents-same, Refines, header}
use captive_portal_esp.Rfid.Store.{cards_path}
use captive_portal_esp.Rfid.Manage.{admin_card_id, remove_first, one_less, remove_from, remove_card}
use captive_portal_esp.Rfid.Remove.{spec_remove, remove_first_left, remove_first_empty}
use captive_portal_esp.Rfid.Faults.{
  Represents-Shows, Shows, read_database-Reads, read_cards-Reads, write_database-Writes,
  with_database,
}
use captive_portal_esp.Rfid.Faults.Left.{
  front, back, write_remaining_cases, Shows-one_less, Represents-left,
}

-- The call did as specified; or it failed, and the files stay what they were; or it failed and the files
-- no longer show the last card, whichever card was to be removed.
abbrev pub RemovesOrFails : ℕ → List Card → ℕ → EspErr × World → Type 0
RemovesOrFails max cards card_id (r, w') =
    Refines max (r, w') (spec_remove cards card_id)
    ⊎ ((((r ≡ esp_fail) ⊎ (r ≡ no_mem)) × Represents max cards w')
        ⊎ ((r ≡ esp_fail) × Shows max (front cards) (encode_cards (back cards)) w'))

module _ {env : Env} (whole : Whole env) {max : ℕ} (cards : List Card) (card_id : ℕ) where
  remove_from-RemovesOrFails :
      (w : World) (r : Represents max cards w) (left : List Card)
      → (card_id == admin_card_id) ≡ false
      → remove_first card_id cards ≡ some left
      → RemovesOrFails max cards card_id
          (remove_from env (header (length cards) max r.checksum) card_id cards w)
  unfolding remove_from give_mutex free
  remove_from-RemovesOrFails w r left user e =
      let (shorter, fits) = rw e at (remove_first_left card_id cards r.fits) in
      let db = one_less (header (length cards) max r.checksum) in
      let count : db.card_count ≡ length left = omega (arith, r.room, r.max_range, shorter) in
      let (t1, counted) = write_database-Writes whole db w in
      elim counted [
        | inr e1 ↦ inr (inl (rw (e, remove_from, e1) (inl refl, Represents-same r refl)))
        | inl e1 ↦
            let w1 = record (with_database db w) { tick = t1 } in
            let there =
              eq_some-content (w.files cards_path) (encode_cards cards) r.body
                (omega (arith, length-encode_cards cards r.fits, shorter)) in
            let (t2, written) =
              write_remaining_cases whole left db.card_count (encode_cards cards) w1 count fits
                there in
            elim written [
              | inl (f, e2, body) ↦ inl (
                  rw (user, e, remove_from, e1, e2)
                    (refl, Represents-left cards w r left shorter fits _ refl body))
              | inr e2 ↦ inr (
                  inr (
                    rw (e, remove_from, e1, e2) refl,
                    rw (e, remove_from, e1, e2)
                        (Shows-one_less cards w r _ (omega (arith, shorter)) refl refl),
                  ))
            ]
      ]

  remove_from_any :
      (w : World) (r : Represents max cards w)
      → (card_id == admin_card_id) ≡ false
      → RemovesOrFails max cards card_id
          (remove_from env (header (length cards) max r.checksum) card_id cards w)
  unfolding remove_from give_mutex free
  remove_from_any w r user = elim (Option-cases (remove_first card_id cards)) [
    | inl missing ↦ inl (rw (user, missing, remove_from) (refl, Represents-same r refl))
    | inr (left, found) ↦ remove_from-RemovesOrFails w r left user found
  ]

  -- Where any call may fail but no read or write is short: removing a card does what the list
  -- specification says; or it answers ESP_FAIL or ESP_ERR_NO_MEM and the files still represent the
  -- list; or it answers ESP_FAIL and the files no longer show the last card of the list, whichever
  -- card was to be removed.
  pub remove_card-RemovesOrFails :
      (w : World)
      → Represents max cards w
      → RemovesOrFails max cards card_id (remove_card env card_id w)
  unfolding remove_card take_mutex malloc give_mutex free
  remove_card-RemovesOrFails w r = elim (Bool-cases (card_id == admin_card_id)) [
    | inl admin ↦ inl (rw admin (refl, r))
    | inr user ↦ elim (Bool-cases (env.semaphore_taken w.tick)) [
      | inr refused ↦ inr (inl (rw (user, refused) (inl refl, Represents-same r refl)))
      | inl taken ↦
          let w1 = record w {
            tick = w.tick + 1;
            usage = record w.usage { takes = w.usage.takes + 1 };
          } in
          let (t, read) =
            read_database-Reads whole w1 (Represents-Shows (Represents-same r refl)) in
          elim read [
            | inr (db, e) ↦ inr (inl (rw (user, taken, e) (inl refl, Represents-same r refl)))
            | inl e ↦ elim (Bool-cases (length cards == 0)) [
              | inl empty ↦ inl (
                  rw
                    (user, taken, e, empty, remove_first_empty card_id cards ((==_iff _ _).0 empty))
                    (refl, Represents-same r refl))
              | inr some_cards ↦ elim (Bool-cases (env.malloc_ok t)) [
                | inr no_room ↦ inr (
                    inl
                      (rw (user, taken, e, some_cards, no_room) (inr refl, Represents-same r refl)))
                | inl got ↦
                    let w2 = record w1 {
                      tick = t + 1;
                      usage = record w1.usage { mallocs = w.usage.mallocs + 1 };
                    } in
                    let (t2, read2) =
                      read_cards-Reads whole w2 (Represents-Shows (Represents-same r refl))
                        (ground arith) in
                    elim read2 [
                      | inr (others, e2) ↦ inr (
                          inl (
                            rw (user, taken, e, some_cards, got, e2)
                              (inl refl, Represents-same r refl)))
                      | inl e2 ↦
                          let w3 = record w2 { tick = t2 } in
                          rw (user, taken, e, some_cards, got, e2)
                            (rw user at (remove_from_any w3 (Represents-same r refl) user))
                    ]
              ]
            ]
          ]
    ]
  ]
