-- ===== src/Rfid/Store.antt =====
-- How components/rfid_manager/rfid_manager.c reads and writes its two files.
use Prim.Native.String.{String}
use captive_portal_esp.Base.{ℕ, ◌*◌, Bool, true, false, List}
use captive_portal_esp.Esp.{Env, M, pure, ◌>>=◌, ◌>>◌, uninitialised, give_mutex, free}
use captive_portal_esp.Storage.{read_file, write_file}
use captive_portal_esp.Rfid.Card.{
  Card, Database, card_size, database_size, encode_database, decode_database, encode_cards,
  decode_cards,
}

-- RFID_DB_PATH and RFID_CARDS_PATH
abbrev pub db_path : String
db_path = "/spiffs/rfid_database.bin"

abbrev pub cards_path : String
cards_path = "/spiffs/rfid_cards.bin"

-- `{0, 200, 0}`
abbrev pub empty_database : Database
empty_database = record { card_count = 0; max_cards = 200; checksum = 0 }

-- `xSemaphoreGive(rfid_mutex); return result;`
abbrev pub leave : {A : Type 0} → A → M A
leave result = give_mutex >> pure result

-- `free(cards); xSemaphoreGive(rfid_mutex); return result;`
abbrev pub free_and_leave : {A : Type 0} → A → M A
free_and_leave result = free >> leave result

module _ (env : Env) where
  -- `rfid_database_t db;` and the read into it
  unfoldable pub read_database : M (Bool × Database)
  read_database = do
    buffer ← uninitialised env database_size
    (ok, bytes) ← read_file env db_path buffer
    pure (ok, decode_database bytes)

  unfoldable pub write_database : Database → M Bool
  write_database db = write_file env db_path (encode_database db) false true

  -- the read into the `count * sizeof(rfid_card_t)` bytes that `malloc` gave
  unfoldable pub read_cards : ℕ → M (Bool × List Card)
  read_cards count = do
    buffer ← uninitialised env (count * card_size)
    (ok, bytes) ← read_file env cards_path buffer
    pure (ok, decode_cards count bytes)

  unfoldable pub write_cards : List Card → Bool → M Bool
  write_cards cards appending = write_file env cards_path (encode_cards cards) appending true
