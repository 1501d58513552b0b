-- ===== src/Rfid/Represents.antt =====
-- The abstract view of the two files: a list of cards and a capacity. On a platform where no call
-- fails, a read gives back what the files represent.
use mathlib.Core.List.{append-nil}
use captive_portal_esp.Base.{
  false, ℕ, ◌+◌, ◌^◌, ◌≤◌, ◌<◌, ◌≡◌, sym, ◌∙◌, true, some, List, [], ◌++◌, length, arith,
}
use captive_portal_esp.Esp.{EspErr, Env, World, Reliable, Reliable-Whole, update}
use captive_portal_esp.Storage.{content}
use captive_portal_esp.Storage.Reliable.{write_file-Reliable}
use captive_portal_esp.Rfid.Card.{Card, Database, FitsDatabase, encode_database, encode_cards}
use captive_portal_esp.Rfid.Layout.{FitsCards, length-encode_database, length-encode_cards}
use captive_portal_esp.Rfid.Opened.{read_database_opened, read_cards_opened}
use captive_portal_esp.Rfid.Store.{
  db_path, cards_path, read_database, read_cards, write_database, write_cards,
}

abbrev pub header : ℕ → ℕ → ℕ → Database
header count max checksum = record { card_count = count; max_cards = max; checksum = checksum }

-- The header counts the cards, there is room for them, and the other file is exactly the cards.
pub record Represents (max : ℕ) (cards : List Card) (w : World) : Type 0 where
  pub checksum : ℕ
  pub sum_range : checksum < 2 ^ 32
  pub max_range : max < 2 ^ 16
  pub room : length cards ≤ max
  pub fits : FitsCards cards
  pub database : w.files db_path ≡ some (encode_database (header (length cards) max checksum))
  pub body : content (w.files cards_path) ≡ encode_cards cards

-- Only the files matter.
abbrev pub Represents-same :
    {max : ℕ} {cards : List Card} {w w' : World}
    → Represents max cards w
    → w'.files ≡ w.files
    → Represents max cards w'
Represents-same r e = record {
  checksum = r.checksum;
  sum_range = r.sum_range;
  max_range = r.max_range;
  room = r.room;
  fits = r.fits;
  database = rw e r.database;
  body = rw e r.body;
}

-- A call that ends in `(result, w')` does what the list specification `(expected, cards)` says.
abbrev pub Refines : ℕ → EspErr × World → EspErr × List Card → Type 0
Refines max (result, w') (expected, cards) = (result ≡ expected) × Represents max cards w'

abbrev pub fits_header :
    {max : ℕ} {cards : List Card} {w : World}
    → (r : Represents max cards w) → FitsDatabase (header (length cards) max r.checksum)
fits_header r = record {
  count_range = omega (arith, r.room, r.max_range);
  max_range = r.max_range;
  sum_range = r.sum_range;
}

module _ {env : Env} (rel : Reliable env) where
  pub read_database-Represents :
      {max : ℕ} (cards : List Card) (w : World) (r : Represents max cards w)
      → (t : ℕ) × (read_database env w
          ≡ ((true, header (length cards) max r.checksum), record w { tick = t }))
  read_database-Represents {max} cards w r =
      read_database_opened (Reliable-Whole rel) (header (length cards) max r.checksum) w
        (fits_header r) (rel.fopen_ok (w.tick + 1)) r.database

  pub read_cards-Represents :
      {max : ℕ} (cards : List Card) (w : World)
      → Represents max cards w
      → 0 < length cards
      → (t : ℕ) × (read_cards env (length cards) w ≡ ((true, cards), record w { tick = t }))
  read_cards-Represents cards w r pos =
      read_cards_opened (Reliable-Whole rel) cards [] w r.fits pos (rel.fopen_ok (w.tick + 1))
        (r.body ∙ sym (append-nil _))

  pub write_database-Reliable :
      (db : Database) (w : World)
      → (t : ℕ) × (write_database env db w ≡ (
        true,
        record w { tick = t; files = update w.files db_path (some (encode_database db)) },
      ))
  unfolding write_database
  write_database-Reliable db w =
      write_file-Reliable rel db_path (encode_database db) false w
        (omega (arith, length-encode_database db))

  pub append_cards-Reliable :
      (cards : List Card) (w : World)
      → FitsCards cards
      → 0 < length cards
      → (t : ℕ) × (write_cards env cards true w ≡ (
        true,
        record w {
          tick = t;
          files =
              update w.files cards_path (some (content (w.files cards_path) ++ encode_cards cards));
        },
      ))
  unfolding write_cards
  append_cards-Reliable cards w f pos =
      write_file-Reliable rel cards_path (encode_cards cards) true w
        (omega (arith, length-encode_cards cards f))

  pub overwrite_cards-Reliable :
      (cards : List Card) (w : World)
      → FitsCards cards
      → 0 < length cards
      → (t : ℕ) × (write_cards env cards false w ≡ (
        true,
        record w { tick = t; files = update w.files cards_path (some (encode_cards cards)) },
      ))
  unfolding write_cards
  overwrite_cards-Reliable cards w f pos =
      write_file-Reliable rel cards_path (encode_cards cards) false w
        (omega (arith, length-encode_cards cards f))
