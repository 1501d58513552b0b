-- ===== src/Rfid/Add.antt =====
-- `rfid_manager_add_card` against its specification on lists of cards.
use captive_portal_esp.Base.{
  ℕ, ◌+◌, ◌-◌, ◌^◌, ◌<◌, ◌≡◌, refl, ap, ◌∙◌, false, some, List, [], ◌∷◌, ◌++◌, if◌then◌else◌, ltb,
  ◌==◌, ltb→lt, length, take, replicate, tabulate, length-append, length-take, length-replicate,
  Bool-cases, ==_iff, inl, inr, arith,
}
use captive_portal_esp.Bytes.{Bytes, c_string}
use captive_portal_esp.Esp.{
  Env, World, Reliable, update, EspErr, esp_ok, invalid_state, no_mem, malloc, take_mutex,
  give_mutex, free, uninitialised,
}
use captive_portal_esp.Rfid.Card.{Card, FitsCard, encode_database, encode_cards}
use captive_portal_esp.Rfid.Layout.{FitsCards, encode_cards-append}
use captive_portal_esp.Rfid.Represents.{
  Represents, Represents-same, Refines, header, read_database-Represents, read_cards-Represents,
  write_database-Reliable, append_cards-Reliable,
}
use captive_portal_esp.Storage.{content}
use captive_portal_esp.Rfid.Store.{db_path, cards_path}
use captive_portal_esp.Rfid.Manage.{
  find_card, is_found, name_field, new_card, one_more, append_card, add_unless_present, add_card,
}

-- Adding to a list of at most `max` cards: an id that is there is refused, then a full list.
abbrev pub spec_add : ℕ → List Card → Card → EspErr × List Card
spec_add max cards card =
    if is_found (find_card card.card_id cards)
    then (invalid_state, cards)
    else if ltb (length cards) max
    then (esp_ok, cards ++ card ∷ [])
    else (no_mem, cards)

length-name_field : (name : Bytes) → length (name_field name) ≡ 32
unfolding name_field
length-name_field name = omega (
  arith,
  length-append {0} (take 31 (c_string name)) (replicate (32 - length (take 31 (c_string name))) 0),
  length-take {0} 31 (c_string name),
  length-replicate {0} {A = ℕ} (32 - length (take 31 (c_string name))) 0,
)

pub new_card-FitsCard :
    (card_id : ℕ) (name padding : Bytes) (now : ℕ)
    → card_id < 2 ^ 32
    → length padding ≡ 3
    → FitsCard (new_card card_id name padding now)
new_card-FitsCard card_id name padding now h p = record {
  id_range = h;
  active_range = omega arith;
  name_length = length-name_field name;
  padding_length = p;
  time_range = omega arith;
}

pub FitsCards-append :
    (cs : List Card) (c : Card) → FitsCards cs → FitsCard c → FitsCards (cs ++ c ∷ [])
FitsCards-append [] c h f = (f, tt)
FitsCards-append (x ∷ cs) c h f = (h.0, FitsCards-append cs c h.1 f)

-- What a call did: it returned as specified for some padding and time, and the files follow.
abbrev pub Adds : ℕ → List Card → ℕ → Bytes → EspErr × World → Type 0
Adds max cards card_id name after =
    (padding : Bytes) × (now : ℕ) × Refines max after
      (spec_add max cards (new_card card_id name padding now))

pub find_card_empty :
    (card_id : ℕ) (cards : List Card)
    → length cards ≡ 0
    → is_found (find_card card_id cards) ≡ false
unfolding find_card
find_card_empty card_id [] h = refl
find_card_empty card_id (c ∷ cs) h = absurd (omega arith)

-- A header that counts one more, and a card behind the others, represent one more card.
pub Represents-appended :
    {max : ℕ} (cards : List Card) (card : Card)
    → FitsCard card
    → length cards < max
    → (w : World) (r : Represents max cards w) (w' : World)
    → w'.files db_path ≡ some (encode_database (one_more (header (length cards) max r.checksum)))
    → content (w'.files cards_path) ≡ content (w.files cards_path) ++ encode_cards (card ∷ [])
    → Represents max (cards ++ card ∷ []) w'
Represents-appended {max} cards card fits below w r w' database body =
    let longer = length-append cards (card ∷ []) in
    record {
      checksum = r.checksum;
      sum_range = r.sum_range;
      max_range = r.max_range;
      room = omega (arith, longer, below);
      fits = FitsCards-append cards card r.fits fits;
      database =
          database
          ∙ ap {A = ℕ} (λ n. some (encode_database (header n max r.checksum)))
              (omega (arith, longer, below, r.max_range));
      body =
          body
          ∙ rw (encode_cards-append cards (card ∷ []))
              (ap (λ b. b ++ encode_cards (card ∷ [])) r.body);
    }

module _ {env : Env} (rel : Reliable env) {max : ℕ} (cards : List Card) (card_id : ℕ) (name : Bytes)
    (id_range : card_id < 2 ^ 32) where
  append_card-Adds :
      (w : World) (r : Represents max cards w)
      → is_found (find_card card_id cards) ≡ false
      → Adds max cards card_id name
          (append_card env (header (length cards) max r.checksum) card_id name w)
  unfolding append_card uninitialised give_mutex
  append_card-Adds w r absent = elim (Bool-cases (ltb (length cards) max)) [
    | inl room ↦
        let padding : Bytes = tabulate 3 (env.garbage w.tick) 0 in
        let now = env.time (w.tick + 1) in
        let card = new_card card_id name padding now in
        let db = header (length cards) max r.checksum in
        let w1 = record w { tick = w.tick + 1 + 1 } in
        let (t1, e1) = write_database-Reliable rel (one_more db) w1 in
        let w2 = record w1 {
          tick = t1;
          files = update w.files db_path (some (encode_database (one_more db)));
        } in
        let fits = new_card-FitsCard card_id name padding now id_range refl in
        let (t2, e2) = append_cards-Reliable rel (card ∷ []) w2 (fits, tt) (omega arith) in
        (
          padding,
          now,
          rw (absent, room, e1, e2)
              (
                refl,
                Represents-appended cards card fits (ltb→lt (length cards) max room) w r _ refl
                    refl,
              ),
        )
    | inr full ↦ ([], 0, rw (absent, full) (refl, Represents-same r refl))
  ]

  add_unless_present-Adds :
      (w : World) (r : Represents max cards w)
      → Adds max cards card_id name
          (add_unless_present env (header (length cards) max r.checksum) card_id name w)
  unfolding add_unless_present malloc free give_mutex
  add_unless_present-Adds w r = elim (Bool-cases (length cards == 0)) [
    | inl empty ↦
        rw empty (append_card-Adds w r (find_card_empty card_id cards ((==_iff _ _).0 empty)))
    | inr some_cards ↦
        let w1 = record w {
          tick = w.tick + 1;
          usage = record w.usage { mallocs = w.usage.mallocs + 1 };
        } in
        let (t, e) = read_cards-Represents rel cards w1 (Represents-same r refl) (ground arith) in
        let w2 = record w1 { tick = t; usage = record w1.usage { frees = w1.usage.frees + 1 } } in
        rw (some_cards, rel.malloc_ok w.tick, e)
          (elim (Bool-cases (is_found (find_card card_id cards))) [
            | inl there ↦ ([], 0, rw there (refl, Represents-same r refl))
            | inr absent ↦
                rw absent (rw absent at (append_card-Adds w2 (Represents-same r refl) absent))
          ])
  ]

  -- Where no platform call fails, adding a card to files that represent a list does what the list
  -- specification says: the same result, and files that represent the specified list.
  pub add_card-Adds :
      (w : World)
      → Represents max cards w
      → Adds max cards card_id name (add_card env card_id (some name) w)
  unfolding add_card take_mutex
  add_card-Adds w r =
      let (t, e) =
        read_database-Represents rel cards
          (record w { tick = w.tick + 1; usage = record w.usage { takes = w.usage.takes + 1 } })
          (Represents-same r refl) in
      rw (rel.semaphore_taken w.tick, e) (add_unless_present-Adds _ (Represents-same r refl))
