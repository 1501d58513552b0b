-- ===== src/Rfid/Defaults.antt =====
-- `rfid_manager_format_database`, `rfid_manager_load_defaults` and `rfid_manager_reset_to_defaults`
-- against their specifications on lists of cards.
use mathlib.Core.List.{append-nil, append_assoc}
use captive_portal_esp.Base.{
  ◌≤◌, ◌++◌, ◌==◌, length-append, lt→ltb, ℕ, ◌+◌, ◌<◌, ◌^◌, ◌≡◌, refl, ap, ◌∙◌, true, some, List,
  [], ◌∷◌, length, Option-cases, Bool-cases, inl, inr, arith,
}
use captive_portal_esp.Bytes.{Bytes}
use captive_portal_esp.Esp.{
  Env, World, Reliable, update, EspErr, esp_ok, invalid_state, take_mutex, give_mutex,
}
use captive_portal_esp.Storage.{content, file_exists}
use captive_portal_esp.Storage.Reliable.{delete_file-Reliable}
use captive_portal_esp.Rfid.Card.{Card, encode_cards, encode_database}
use captive_portal_esp.Rfid.Represents.{Represents, Refines, write_database-Reliable}
use captive_portal_esp.Rfid.Store.{db_path, cards_path, empty_database}
use captive_portal_esp.Rfid.Manage.{add_card, new_card, find_card, is_found}
use captive_portal_esp.Rfid.Add.{add_card-Adds}
use captive_portal_esp.Rfid.Setup.{
  default_cards, ensure_database, add_each, load_defaults, format_database,
}

module _ {env : Env} (rel : Reliable env) where
  pub empty-Represents :
      (w : World)
      → w.files db_path ≡ some (encode_database empty_database)
      → content (w.files cards_path) ≡ []
      → Represents 200 [] w
  unfolding encode_cards
  empty-Represents w d b = record {
    checksum = 0;
    sum_range = omega arith;
    max_range = omega arith;
    room = omega arith;
    fits = tt;
    database = d;
    body = b;
  }

  -- Where no platform call fails, formatting makes any two files represent the empty database.
  pub format_database-Refines : (w : World) → Refines 200 (format_database env w) (esp_ok, [])
  unfolding format_database take_mutex give_mutex file_exists
  format_database-Refines w =
      let w1 = record w {
        tick = w.tick + 1;
        usage = record w.usage { takes = w.usage.takes + 1 };
      } in
      let (t, e) = write_database-Reliable rel empty_database w1 in
      let w2 = record w1 {
        tick = t;
        files = update w.files db_path (some (encode_database empty_database));
      } in
      rw (rel.semaphore_taken w.tick, e)
        (elim (Option-cases (w.files cards_path)) [
          | inl missing ↦ rw missing (refl, empty-Represents _ refl (ap content missing))
          | inr (b, there) ↦
              let (t2, e2) = delete_file-Reliable rel cards_path b w2 there in
              rw (there, e2) (refl, empty-Represents _ refl refl)
        ])

-- A card with this id is in the list.
abbrev pub Holds : List Card → ℕ → Type 0
Holds cards card_id = is_found (find_card card_id cards) ≡ true

abbrev pub HoldsAll : List Card → List (ℕ × Bytes) → Type 0
HoldsAll cards [] = Unit
HoldsAll cards ((card_id, name) ∷ defaults) = Holds cards card_id × HoldsAll cards defaults

abbrev pub IdsInRange : List (ℕ × Bytes) → Type 0
IdsInRange [] = Unit
IdsInRange ((card_id, name) ∷ defaults) = (card_id < 2 ^ 32) × IdsInRange defaults

pub Holds-append : (card_id : ℕ) (cs ds : List Card) → Holds cs card_id → Holds (cs ++ ds) card_id
unfolding find_card
Holds-append card_id [] ds h = cc
Holds-append card_id (c ∷ cs) ds h = elim (Bool-cases (c.card_id == card_id)) [
  | inl here ↦ rw here
  | inr further ↦ rw further (Holds-append card_id cs ds (rw further at h))
]

pub Holds-last :
    (card_id : ℕ) (cs : List Card) (c : Card) → c.card_id ≡ card_id → Holds (cs ++ c ∷ []) card_id
unfolding find_card
Holds-last card_id [] c e = ground arith
Holds-last card_id (x ∷ cs) c e = elim (Bool-cases (x.card_id == card_id)) [
  | inl here ↦ rw here
  | inr further ↦ rw further (Holds-last card_id cs c e)
]

-- The loop of `load_defaults` has left all old cards, and now holds all the default ids.
record Loaded (max : ℕ) (cards : List Card) (defaults : List (ℕ × Bytes)) (out : EspErr × World)
    : Type 0 where
  extra : List Card
  added : length extra ≤ length defaults
  result : out.0 ≡ esp_ok
  files : Represents max (cards ++ extra) out.1
  holds : HoldsAll (cards ++ extra) defaults

module _ {env : Env} (rel : Reliable env) {max : ℕ} where
  add_each-Loaded :
      (defaults : List (ℕ × Bytes)) (cards : List Card) (w : World)
      → IdsInRange defaults
      → length cards + length defaults ≤ max
      → Represents max cards w
      → Loaded max cards defaults (add_each env defaults w)
  unfolding add_each
  add_each-Loaded [] cards w ids room r = record {
    extra = [];
    added = omega arith;
    result = refl;
    files = rw append-nil r;
    holds = tt;
  }
  add_each-Loaded ((card_id, name) ∷ defaults) cards w ids room r =
      let (padding, now, done) = add_card-Adds rel cards card_id name ids.0 w r in
      let card = new_card card_id name padding now in
      let w' = (add_card env card_id (some name) w).1 in
      elim (Bool-cases (is_found (find_card card_id cards))) [
        | inl there ↦
            let refused : (add_card env card_id (some name) w).0 ≡ invalid_state =
              done.0 ∙ rw there in
            let l = add_each-Loaded defaults cards w' ids.1 (omega arith) (rw there at done.1) in
            record {
              extra = l.extra;
              added = omega (arith, l.added);
              result = rw refused l.result;
              files = rw refused l.files;
              holds = (Holds-append card_id cards l.extra there, l.holds);
            }
        | inr absent ↦
            let fits = lt→ltb (length cards) max (omega arith) in
            let added : (add_card env card_id (some name) w).0 ≡ esp_ok =
              done.0 ∙ rw (absent, fits) in
            let cards' = cards ++ card ∷ [] in
            let l =
              add_each-Loaded defaults cards' w' ids.1
                (omega (arith, length-append cards (card ∷ []))) (rw (absent, fits) at done.1) in
            let regroup = append_assoc cards (card ∷ []) l.extra in
            record {
              extra = card ∷ l.extra;
              added = omega (arith, l.added);
              result = rw added l.result;
              files = rw (added, ← regroup) l.files;
              holds = (
                rw regroup at
                    (Holds-append card_id cards' l.extra (Holds-last card_id cards card refl)),
                rw regroup at l.holds,
              );
            }
      ]

  -- Where no platform call fails and there is room for three cards more, loading the defaults
  -- succeeds: the cards that were there stay, in their order, at most three cards follow, and all
  -- three default ids are present, the admin card's among them.
  pub load_defaults_keeps :
      (cards : List Card) (w : World)
      → length cards + 3 ≤ max
      → Represents max cards w
      → (extra : List Card) × ((load_defaults env w).0 ≡ esp_ok)
        × (length extra ≤ 3)
        × Represents max (cards ++ extra) (load_defaults env w).1
        × HoldsAll (cards ++ extra) default_cards
  unfolding load_defaults ensure_database file_exists
  load_defaults_keeps cards w room r =
      let l = add_each-Loaded default_cards cards w (omega arith) room r in
      (l.extra, rw r.database l.result, l.added, rw r.database l.files, l.holds)
