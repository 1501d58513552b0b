-- ===== src/Rfid/Remove.antt =====
-- `rfid_manager_remove_card` and `rfid_manager_check_card` against their specifications on lists of
-- cards.
use captive_portal_esp.Base.{
  ℕ, ◌+◌, ◌<◌, ◌≡◌, refl, ap, Bool, true, false, Option, some, none, List, [], ◌∷◌, if◌then◌else◌,
  ◌==◌, lt→ltb, suc, length, Bool-cases, Option-cases, ==_iff, inl, inr, arith,
}
use captive_portal_esp.Bytes.{Bytes}
use captive_portal_esp.Esp.{
  Env, World, Reliable, update, EspErr, esp_ok, not_found, not_supported, malloc, take_mutex,
  give_mutex, free,
}
use captive_portal_esp.Storage.{content, file_exists}
use captive_portal_esp.Storage.Reliable.{delete_file-Reliable}
use captive_portal_esp.Rfid.Card.{Card, encode_database, encode_cards}
use captive_portal_esp.Rfid.Layout.{FitsCards, length-encode_cards}
use captive_portal_esp.Rfid.Opened.{eq_some-content}
use captive_portal_esp.Rfid.Represents.{
  Represents, Represents-same, Refines, header, read_database-Represents, read_cards-Represents,
  write_database-Reliable, overwrite_cards-Reliable,
}
use captive_portal_esp.Rfid.Store.{db_path, cards_path}
use captive_portal_esp.Rfid.Manage.{
  admin_card_id, find_card, remove_first, check_found, one_less, write_remaining, remove_from,
  remove_card, check_card,
}

-- Removing from a list: never the admin card, and otherwise the first card with the id.
abbrev pub spec_remove : List Card → ℕ → EspErr × List Card
spec_remove cards card_id =
    if card_id == admin_card_id then (not_supported, cards) else elim (remove_first card_id cards) [
      | none ↦ (not_found, cards)
      | some left ↦ (esp_ok, left)
    ]

-- The cards left are one fewer, and still in range.
abbrev LeftOf : List Card → Option (List Card) → Type 0
LeftOf cards none = Unit
LeftOf cards (some left) = (length left + 1 ≡ length cards) × FitsCards left

remove_first_step :
    (b : Bool) (c : Card) (cs : List Card) (o : Option (List Card))
    → FitsCards (c ∷ cs)
    → LeftOf cs o
    → LeftOf (c ∷ cs) (if b then some cs else elim o [ none ↦ none | some left ↦ some (c ∷ left) ])
remove_first_step true c cs o f h = (omega arith, f.1)
remove_first_step false c cs none f h = tt
remove_first_step false c cs (some left) f h = (omega arith, (f.0, h.1))

pub remove_first_left :
    (card_id : ℕ) (cards : List Card) → FitsCards cards → LeftOf cards (remove_first card_id cards)
unfolding remove_first
remove_first_left card_id [] f = tt
remove_first_left card_id (c ∷ cs) f =
    remove_first_step (c.card_id == card_id) c cs (remove_first card_id cs) f
      (remove_first_left card_id cs f.1)

pub length_pos : (c : Card) (cs : List Card) → 0 < length (c ∷ cs)
length_pos c cs = omega arith

pub remove_first_empty :
    (card_id : ℕ) (cards : List Card) → length cards ≡ 0 → remove_first card_id cards ≡ none
unfolding remove_first
remove_first_empty card_id [] h = refl
remove_first_empty card_id (c ∷ cs) h = absurd (omega arith)

find_card-none :
    (card_id : ℕ) (cards : List Card) → length cards ≡ 0 → find_card card_id cards ≡ none
unfolding find_card
find_card-none card_id [] h = refl
find_card-none card_id (c ∷ cs) h = absurd (omega arith)

module _ {env : Env} (rel : Reliable env) where
  -- Afterwards the cards file is exactly the cards left: it is deleted if there is none.
  write_remaining-Reliable :
      (left : List Card) (n : ℕ) (b : Bytes) (w : World)
      → n ≡ length left
      → FitsCards left
      → w.files cards_path ≡ some b
      → (t : ℕ) × (f : Option Bytes) × (write_remaining env left n w
          ≡ (true, record w { tick = t; files = update w.files cards_path f }))
        × (content f ≡ encode_cards left)
  unfolding write_remaining file_exists encode_cards
  write_remaining-Reliable [] n b w e fits there =
      let (t, deleted) = delete_file-Reliable rel cards_path b w there in
      (t, none, rw (e, there, deleted), refl)
  write_remaining-Reliable (c ∷ cs) n b w e fits there =
      let (t, written) = overwrite_cards-Reliable rel (c ∷ cs) w fits (length_pos c cs) in
      (
        t,
        some (encode_cards (c ∷ cs)),
        rw (e, lt→ltb 0 (suc (length cs)) (length_pos c cs), written),
        refl,
      )

module _ {env : Env} (rel : Reliable env) {max : ℕ} (cards : List Card) (card_id : ℕ) where
  remove_from-Refines :
      (w : World) (r : Represents max cards w) (left : List Card)
      → remove_first card_id cards ≡ some left
      → Refines max
          (remove_from env (header (length cards) max r.checksum) card_id cards w)
          (esp_ok, left)
  unfolding remove_from give_mutex free
  remove_from-Refines w r left e =
      let (shorter, fits) = rw e at (remove_first_left card_id cards r.fits) in
      let db = one_less (header (length cards) max r.checksum) in
      let count : db.card_count ≡ length left = omega (arith, r.room, r.max_range, shorter) in
      let (t1, e1) = write_database-Reliable rel db w in
      let w1 = record w { tick = t1; files = update w.files db_path (some (encode_database db)) } in
      let there =
        eq_some-content (w.files cards_path) (encode_cards cards) r.body
          (omega (arith, length-encode_cards cards r.fits, shorter)) in
      let (t2, f, e2, body) =
        write_remaining-Reliable rel left db.card_count (encode_cards cards) w1 count fits there in
      rw (e, remove_from, e1, e2)
        (
          refl,
          record {
            checksum = r.checksum;
            sum_range = r.sum_range;
            max_range = r.max_range;
            room = omega (arith, r.room, shorter);
            fits = fits;
            database = ap {A = ℕ} (λ n. some (encode_database (header n max r.checksum))) count;
            body = body;
          },
        )

  remove_from_missing :
      (w : World) (r : Represents max cards w)
      → remove_first card_id cards ≡ none
      → Refines max
          (remove_from env (header (length cards) max r.checksum) card_id cards w)
          (not_found, cards)
  unfolding remove_from give_mutex free
  remove_from_missing w r missing = rw (missing, remove_from) (refl, Represents-same r refl)

  -- Where no platform call fails, removing a card does what the list specification says: the admin
  -- card is refused, an id that is not there is not found, and otherwise exactly the first card
  -- with the id is gone from the files.
  pub remove_card-Refines :
      (w : World)
      → Represents max cards w
      → Refines max (remove_card env card_id w) (spec_remove cards card_id)
  unfolding remove_card take_mutex malloc give_mutex
  remove_card-Refines w r = elim (Bool-cases (card_id == admin_card_id)) [
    | inl admin ↦ rw admin (refl, r)
    | inr user ↦
        let w1 = record w {
          tick = w.tick + 1;
          usage = record w.usage { takes = w.usage.takes + 1 };
        } in
        let (t, e) = read_database-Represents rel cards w1 (Represents-same r refl) in
        rw (user, rel.semaphore_taken w.tick, e)
          (elim (Bool-cases (length cards == 0)) [
            | inl empty ↦
                rw (empty, remove_first_empty card_id cards ((==_iff _ _).0 empty))
                  (refl, Represents-same r refl)
            | inr some_cards ↦
                let w2 = record w1 {
                  tick = t + 1;
                  usage = record w1.usage { mallocs = w.usage.mallocs + 1 };
                } in
                let (t2, e2) =
                  read_cards-Represents rel cards w2 (Represents-same r refl) (ground arith) in
                let w3 = record w2 { tick = t2 } in
                rw (some_cards, rel.malloc_ok t, e2)
                  (elim (Option-cases (remove_first card_id cards)) [
                    | inl missing ↦
                        rw missing (remove_from_missing w3 (Represents-same r refl) missing)
                    | inr (left, found) ↦
                        rw found (remove_from-Refines w3 (Represents-same r refl) left found)
                  ])
          ])
  ]

  -- Where no platform call fails, checking a card leaves what the files represent, and answers
  -- ESP_OK for the first card with the id if it is active, ESP_ERR_INVALID_STATE if it is
  -- inactive, and ESP_ERR_NOT_FOUND if there is none.
  pub check_card-Refines :
      (w : World)
      → Represents max cards w
      → Refines max (check_card env card_id w) (check_found (find_card card_id cards), cards)
  unfolding check_card take_mutex malloc give_mutex free
  check_card-Refines w r =
      let w1 = record w {
        tick = w.tick + 1;
        usage = record w.usage { takes = w.usage.takes + 1 };
      } in
      let (t, e) = read_database-Represents rel cards w1 (Represents-same r refl) in
      rw (rel.semaphore_taken w.tick, e)
        (elim (Bool-cases (length cards == 0)) [
          | inl empty ↦
              rw (empty, find_card-none card_id cards ((==_iff _ _).0 empty))
                (unfold check_found in (refl, Represents-same r refl))
          | inr some_cards ↦
              let w2 = record w1 {
                tick = t + 1;
                usage = record w1.usage { mallocs = w.usage.mallocs + 1 };
              } in
              let (t2, e2) =
                read_cards-Represents rel cards w2 (Represents-same r refl) (ground arith) in
              rw (some_cards, rel.malloc_ok t, e2) (refl, Represents-same r refl)
        ])
