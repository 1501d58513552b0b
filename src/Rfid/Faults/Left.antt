-- ===== src/Rfid/Faults/Left.antt =====
-- The files that `rfid_manager_remove_card` of components/rfid_manager/rfid_manager.c writes, and what they show where
-- only the header was written.
use captive_portal_esp.Base.{
  ℕ, ◌+◌, ◌-◌, ◌<◌, ◌≡◌, refl, sym, ap, ◌∙◌, false, true, some, none, Option, List, [], ◌∷◌, suc,
  zero, lt→ltb, length, take, drop, length-take, take-append-drop, Bool-cases, inl, inr, ◌⊎◌, arith,
}
use captive_portal_esp.Bytes.{Bytes}
use captive_portal_esp.Esp.{Env, World, Whole, update}
use captive_portal_esp.Storage.{content, file_exists, delete_file, unlink}
use captive_portal_esp.Rfid.Card.{Card, encode_database, encode_cards}
use captive_portal_esp.Rfid.Layout.{FitsCards, encode_cards-append}
use captive_portal_esp.Rfid.Represents.{Represents, header}
use captive_portal_esp.Rfid.Store.{db_path, cards_path}
use captive_portal_esp.Rfid.Manage.{one_less, write_remaining}
use captive_portal_esp.Rfid.Remove.{length_pos}
use captive_portal_esp.Rfid.Faults.{Shows, overwrite_cards-Writes}

-- All cards but the last, and the last.
abbrev pub front : List Card → List Card
front cards = take (length cards - 1) cards

abbrev pub back : List Card → List Card
back cards = drop (length cards - 1) cards

FitsCards-take : (n : ℕ) (cards : List Card) → FitsCards cards → FitsCards (take n cards)
FitsCards-take zero cards f = tt
FitsCards-take (suc n) [] f = tt
FitsCards-take (suc n) (c ∷ cs) f = (f.0, FitsCards-take n cs f.1)

module _ {env : Env} (whole : Whole env) where
  pub write_remaining_cases :
      (left : List Card) (n : ℕ) (b : Bytes) (w : World)
      → n ≡ length left
      → FitsCards left
      → w.files cards_path ≡ some b
      → (t : ℕ) × (((f : Option Bytes) × (write_remaining env left n w
              ≡ (true, record w { tick = t; files = update w.files cards_path f }))
            × (content f ≡ encode_cards left))
          ⊎ (write_remaining env left n w ≡ (false, record w { tick = t })))
  unfolding write_remaining file_exists encode_cards delete_file unlink
  write_remaining_cases [] n b w e fits there = elim (Bool-cases (env.unlink_ok w.tick)) [
    | inl gone ↦ (w.tick + 1, inl (none, rw (e, there, delete_file, there, gone), refl))
    | inr stays ↦ (w.tick + 1, inr (rw (e, there, delete_file, there, stays)))
  ]
  write_remaining_cases (c ∷ cs) n b w e fits there =
      let (t, written) = overwrite_cards-Writes whole (c ∷ cs) w fits (length_pos c cs) in
      let some_left = lt→ltb 0 (suc (length cs)) (length_pos c cs) in
      elim written [
        | inl ok ↦ (t, inl (some (encode_cards (c ∷ cs)), rw (e, some_left, ok), refl))
        | inr bad ↦ (t, inr (rw (e, some_left, bad)))
      ]

module _ {max : ℕ} (cards : List Card) where
  -- A header that counts one less, over the same cards.
  pub Shows-one_less :
      (w : World) (r : Represents max cards w) (w' : World)
      → 0 < length cards
      → w'.files db_path ≡ some (encode_database (one_less (header (length cards) max r.checksum)))
      → content (w'.files cards_path) ≡ content (w.files cards_path)
      → Shows max (front cards) (encode_cards (back cards)) w'
  Shows-one_less w r w' pos database body =
      let n : ℕ = length cards - 1 in
      let shorter = length-take n cards in
      record {
        checksum = r.checksum;
        sum_range = r.sum_range;
        max_range = r.max_range;
        count_range = omega (arith, shorter, r.room, r.max_range);
        fits = FitsCards-take n cards r.fits;
        database =
            database
            ∙ ap {A = ℕ} (λ m. some (encode_database (header m max r.checksum)))
                (omega (arith, pos, shorter, r.room, r.max_range));
        body =
            body
            ∙ r.body
            ∙ ap encode_cards (sym (take-append-drop n cards))
            ∙ encode_cards-append (take n cards) (drop n cards);
      }

  pub Represents-left :
      (w : World) (r : Represents max cards w) (left : List Card)
      → length left + 1 ≡ length cards
      → FitsCards left
      → (w' : World)
      → w'.files db_path ≡ some (encode_database (one_less (header (length cards) max r.checksum)))
      → content (w'.files cards_path) ≡ encode_cards left
      → Represents max left w'
  Represents-left w r left shorter fits w' database body = record {
    checksum = r.checksum;
    sum_range = r.sum_range;
    max_range = r.max_range;
    room = omega (arith, r.room, shorter);
    fits = fits;
    database =
        database
        ∙ ap {A = ℕ} (λ m. some (encode_database (header m max r.checksum)))
            (omega (arith, shorter, r.room, r.max_range));
    body = body;
  }
