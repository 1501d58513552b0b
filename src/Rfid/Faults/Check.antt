-- ===== src/Rfid/Faults/Check.antt =====
-- `rfid_manager_check_card` of components/rfid_manager/rfid_manager.c where calls may fail.
use captive_portal_esp.Base.{
  ℕ, ◌+◌, ◌≡◌, ◌≢◌, refl, ap, subst, ◌==◌, none, List, [], ◌∷◌, length, Bool-cases, ==_iff, inl,
  inr, ◌⊎◌, arith,
}
use captive_portal_esp.Bytes.{Bytes}
use captive_portal_esp.Esp.{
  Env, World, Whole, EspErr, esp_ok, not_found, invalid_state, esp_fail, no_mem, malloc, take_mutex,
  give_mutex, free,
}
use captive_portal_esp.Rfid.Card.{Card}
use captive_portal_esp.Rfid.Manage.{find_card, check_found, check_card}
use captive_portal_esp.Rfid.Faults.{Shows, Shows-same, read_database-Reads, read_cards-Reads}

-- The first card with the id is active and the code is ESP_OK, or it is not and the code is
-- ESP_ERR_INVALID_STATE; or no card has it and the code is ESP_ERR_NOT_FOUND.
abbrev Answer : List Card → ℕ → EspErr → Type 0
Answer [] card_id code = code ≡ not_found
Answer (c ∷ cs) card_id code =
    ((c.card_id ≡ card_id)
      × (((c.active ≢ 0) × (code ≡ esp_ok)) ⊎ ((c.active ≡ 0) × (code ≡ invalid_state))))
    ⊎ ((c.card_id ≢ card_id) × Answer cs card_id code)

-- The answer that the list calls for, or that of a call that failed.
abbrev pub AnswersOrFails : List Card → ℕ → EspErr → Type 0
AnswersOrFails cards card_id r = Answer cards card_id r ⊎ ((r ≡ esp_fail) ⊎ (r ≡ no_mem))

Answer-check_found :
    (cards : List Card) (card_id : ℕ) → Answer cards card_id (check_found (find_card card_id cards))
unfolding find_card check_found
Answer-check_found [] card_id = refl
Answer-check_found (c ∷ cs) card_id = elim (Bool-cases (c.card_id == card_id)) [
  | inr further ↦ inr ((λ e. absurd (ground arith)), rw further (Answer-check_found cs card_id))
  | inl here ↦ elim (Bool-cases (c.active == 0)) [
    | inl inactive ↦
        inl ((==_iff _ _).0 here, inr ((==_iff _ _).0 inactive, rw (here, inactive) refl))
    | inr active ↦
        inl ((==_iff _ _).0 here, inl ((λ e. absurd (ground arith)), rw (here, active) refl))
  ]
]

find_card-none :
    (card_id : ℕ) (cards : List Card) → length cards ≡ 0 → find_card card_id cards ≡ none
unfolding find_card
find_card-none card_id [] h = refl
find_card-none card_id (c ∷ cs) h = absurd (omega arith)

module _ {env : Env} (whole : Whole env) {max : ℕ} (cards : List Card) {rest : Bytes}
    (card_id : ℕ) where
  -- Where any call may fail but no read is short, on files whose header counts a list that the
  -- cards file begins with: checking a card answers ESP_OK if the first card with the id is
  -- active, ESP_ERR_INVALID_STATE if it is not, and ESP_ERR_NOT_FOUND if no card has the id; or
  -- else ESP_FAIL or ESP_ERR_NO_MEM. No failure grants access.
  pub check_card-AnswersOrFails :
      (w : World)
      → Shows max cards rest w
      → AnswersOrFails cards card_id (check_card env card_id w).0
  unfolding check_card check_found take_mutex malloc give_mutex free
  check_card-AnswersOrFails w r = elim (Bool-cases (env.semaphore_taken w.tick)) [
    | inr refused ↦ inr (inl (rw refused refl))
    | inl taken ↦
        let w1 = record w {
          tick = w.tick + 1;
          usage = record w.usage { takes = w.usage.takes + 1 };
        } in
        let (t, read) = read_database-Reads whole w1 (Shows-same r refl) in
        elim read [
          | inr (db, e) ↦ inr (inl (rw (taken, e) refl))
          | inl e ↦ elim (Bool-cases (length cards == 0)) [
            | inl empty ↦ inl (
                rw (taken, e, empty)
                  (subst (Answer cards card_id)
                    (ap check_found (find_card-none card_id cards ((==_iff _ _).0 empty)))
                    (Answer-check_found cards card_id)))
            | inr some_cards ↦ elim (Bool-cases (env.malloc_ok t)) [
              | inr no_room ↦ inr (inr (rw (taken, e, some_cards, no_room) refl))
              | inl got ↦
                  let w2 = record w1 {
                    tick = t + 1;
                    usage = record w1.usage { mallocs = w.usage.mallocs + 1 };
                  } in
                  let (t2, read2) = read_cards-Reads whole w2 (Shows-same r refl) (ground arith) in
                  elim read2 [
                    | inl e2 ↦
                        inl (rw (taken, e, some_cards, got, e2) (Answer-check_found cards card_id))
                    | inr (others, e2) ↦ inr (inl (rw (taken, e, some_cards, got, e2) refl))
                  ]
            ]
          ]
        ]
  ]
