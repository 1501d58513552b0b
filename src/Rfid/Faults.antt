-- ===== src/Rfid/Faults.antt =====
-- components/rfid_manager/rfid_manager.c on a platform whose calls may fail, though none is short: what each
-- operation leaves. Files show a list of cards when the header counts them and the other file begins with
-- them; what follows, `rest`, is left by an operation that failed halfway.
pub mod Check
pub mod Add
pub mod Left
pub mod Remove
pub mod Behind
use mathlib.Core.List.{append-nil}
use captive_portal_esp.Base.{
  false, if◌then◌else◌, ℕ, ◌+◌, ◌*◌, ◌^◌, ◌≤◌, ◌<◌, ◌≡◌, sym, ap, ◌∙◌, Bool, true, some, none,
  Option, List, [], ◌++◌, Bool-cases, inl, inr, ◌⊎◌, length, tabulate, length-tabulate,
  length-append, arith,
}
use captive_portal_esp.Bytes.{Bytes}
use captive_portal_esp.Esp.{EspErr, Env, World, M, Whole, update, uninitialised}
use Prim.Native.String.{String}
use captive_portal_esp.Storage.{content, opened, append, overwrite, write_file}
use captive_portal_esp.Storage.Reliable.{write_file-Whole, write_file_closed, read_file_closed}
use captive_portal_esp.Rfid.Card.{
  Card, Database, FitsDatabase, encode_database, decode_database, encode_cards, decode_cards,
}
use captive_portal_esp.Rfid.Layout.{
  FitsCards, length-encode_database, length-encode_cards, decode_database-encode_database,
  decode_cards-encode_cards,
}
use captive_portal_esp.Rfid.Represents.{Represents, header}
use captive_portal_esp.Rfid.Opened.{read_database_opened, read_cards_opened}
use captive_portal_esp.Rfid.Store.{
  db_path, cards_path, read_database, read_cards, write_database, write_cards,
}

pub record Shows (max : ℕ) (cards : List Card) (rest : Bytes) (w : World) : Type 0 where
  pub checksum : ℕ
  pub sum_range : checksum < 2 ^ 32
  pub max_range : max < 2 ^ 16
  pub count_range : length cards < 2 ^ 16
  pub fits : FitsCards cards
  pub database : w.files db_path ≡ some (encode_database (header (length cards) max checksum))
  pub body : content (w.files cards_path) ≡ encode_cards cards ++ rest

abbrev pub Shows-same :
    {max : ℕ} {cards : List Card} {rest : Bytes} {w w' : World}
    → Shows max cards rest w
    → w'.files ≡ w.files
    → Shows max cards rest w'
Shows-same r e = record {
  checksum = r.checksum;
  sum_range = r.sum_range;
  max_range = r.max_range;
  count_range = r.count_range;
  fits = r.fits;
  database = rw e r.database;
  body = rw e r.body;
}

-- Files that represent a list show it, and nothing follows.
abbrev pub Represents-Shows :
    {max : ℕ} {cards : List Card} {w : World} → Represents max cards w → Shows max cards [] w
Represents-Shows r = record {
  checksum = r.checksum;
  sum_range = r.sum_range;
  max_range = r.max_range;
  count_range = omega (arith, r.room, r.max_range);
  fits = r.fits;
  database = r.database;
  body = r.body ∙ sym (append-nil _);
}

abbrev fits_shown :
    {max : ℕ} {cards : List Card} {rest : Bytes} {w : World}
    → (r : Shows max cards rest w) → FitsDatabase (header (length cards) max r.checksum)
fits_shown r = record {
  count_range = r.count_range;
  max_range = r.max_range;
  sum_range = r.sum_range;
}

-- A read gives `a` or fails; a write leaves `files` or fails and leaves all as it was.
abbrev pub Reads : {A : Type 0} → M (Bool × A) → A → World → Type 0
Reads {A} m a w =
    (t : ℕ) × ((m w ≡ ((true, a), record w { tick = t }))
      ⊎ ((b : A) × (m w ≡ ((false, b), record w { tick = t }))))

abbrev pub Writes : M Bool → (World → World) → World → Type 0
Writes m after w =
    (t : ℕ) × ((m w ≡ (true, record (after w) { tick = t }))
      ⊎ (m w ≡ (false, record w { tick = t })))

abbrev pub with_database : Database → World → World
with_database db w = record w { files = update w.files db_path (some (encode_database db)) }

abbrev pub with_cards : Bytes → World → World
with_cards bytes w = record w { files = update w.files cards_path (some bytes) }

module _ {env : Env} (whole : Whole env) where
  pub read_database-Reads :
      {max : ℕ} {cards : List Card} {rest : Bytes} (w : World) (r : Shows max cards rest w)
      → Reads (read_database env) (header (length cards) max r.checksum) w
  unfolding read_database uninitialised
  read_database-Reads {max} {cards} w r =
      let db = header (length cards) max r.checksum in
      let buffer : Bytes = tabulate 8 (env.garbage w.tick) 0 in
      let w1 = record w { tick = w.tick + 1 } in
      elim (Bool-cases (env.fopen_ok (w.tick + 1))) [
        | inl opens ↦
            let (t, e) = read_database_opened whole db w (fits_shown r) opens r.database in
            (t, inl e)
        | inr shut ↦ (
          w.tick + 1 + 1,
          inr (
            decode_database buffer,
            rw (read_file_closed env db_path buffer w1 shut (omega arith)),
          ),
        )
      ]

  pub read_cards-Reads :
      {max : ℕ} {cards : List Card} {rest : Bytes} (w : World)
      → Shows max cards rest w
      → 0 < length cards
      → Reads (read_cards env (length cards)) cards w
  unfolding read_cards uninitialised
  read_cards-Reads {max} {cards} {rest} w r pos =
      let n : ℕ = length cards * 44 in
      let buffer : Bytes = tabulate n (env.garbage w.tick) 0 in
      let room = length-tabulate n (env.garbage w.tick) 0 in
      let w1 = record w { tick = w.tick + 1 } in
      elim (Bool-cases (env.fopen_ok (w.tick + 1))) [
        | inl opens ↦
            let (t, e) = read_cards_opened whole cards rest w r.fits pos opens r.body in (t, inl e)
        | inr shut ↦ (
          w.tick + 1 + 1,
          inr (
            decode_cards (length cards) buffer,
            rw (read_file_closed env cards_path buffer w1 shut (omega arith)),
          ),
        )
      ]

  write_file-Writes :
      (name : String) (bytes : Bytes) (appending : Bool) (w : World)
      → 0 < length bytes
      → Writes
          (write_file env name bytes appending true)
          (λ v. record v {
            files =
                update v.files name
                  (some (opened (if appending then append else overwrite) (v.files name) ++ bytes));
          })
          w
  write_file-Writes name bytes appending w some_bytes = elim (Bool-cases (env.fopen_ok w.tick)) [
    | inl opens ↦
        let (t, e) = write_file-Whole whole name bytes appending w opens some_bytes in (t, inl e)
    | inr shut ↦ (w.tick + 1, inr (write_file_closed env name bytes appending w shut some_bytes))
  ]

  pub write_database-Writes :
      (db : Database) (w : World) → Writes (write_database env db) (with_database db) w
  unfolding write_database
  write_database-Writes db w =
      write_file-Writes db_path (encode_database db) false w
        (omega (arith, length-encode_database db))

  pub append_cards-Writes :
      (cards : List Card) (w : World)
      → FitsCards cards
      → 0 < length cards
      → Writes
          (write_cards env cards true)
          (with_cards (content (w.files cards_path) ++ encode_cards cards))
          w
  unfolding write_cards
  append_cards-Writes cards w f pos =
      write_file-Writes cards_path (encode_cards cards) true w
        (omega (arith, length-encode_cards cards f))

  pub overwrite_cards-Writes :
      (cards : List Card) (w : World)
      → FitsCards cards
      → 0 < length cards
      → Writes (write_cards env cards false) (with_cards (encode_cards cards)) w
  unfolding write_cards
  overwrite_cards-Writes cards w f pos =
      write_file-Writes cards_path (encode_cards cards) false w
        (omega (arith, length-encode_cards cards f))
