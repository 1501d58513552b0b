-- ===== src/Rfid/Setup.antt =====
-- `rfid_manager_init`, `rfid_manager_load_defaults`, `rfid_manager_format_database` and
-- `rfid_manager_reset_to_defaults` of components/rfid_manager/rfid_manager.c.
use captive_portal_esp.Base.{ℕ, ◌+◌, Bool, true, not, ◌||◌, some, List, [], ◌∷◌, if◌then◌else◌}
use captive_portal_esp.Bytes.{Bytes, codes}
use captive_portal_esp.Esp.{
  EspErr, esp_ok, esp_fail, is_ok, is_invalid_state, Env, M, pure, ◌>>=◌, ◌>>◌, take_mutex,
}
use captive_portal_esp.Storage.Mount
use captive_portal_esp.Storage.{file_exists, delete_file, is_initialized}
use captive_portal_esp.Rfid.Store.{db_path, cards_path, empty_database, leave, write_database}
use captive_portal_esp.Rfid.Manage.{add_card}
use captive_portal_esp.Rfid.Query.{load_from_file}

-- `default_cards`: the fields that are used
abbrev pub default_cards : List (ℕ × Bytes)
default_cards =
    (0x12345678, codes "Admin Card")
    ∷ (0x87654321, codes "User Card 1")
    ∷ (0xABCDEF00, codes "User Card 2")
    ∷ []

module _ (env : Env) where
  -- "Create mutex if it doesn't exist"
  unfoldable pub create_mutex : M Bool
  create_mutex w =
      if w.rfid_mutex
      then (true, w)
      else let made = env.semaphore_created w.tick in
        (made, record w { tick = w.tick + 1; rfid_mutex = made })

  -- "Initialize SPIFFS storage only if not already initialized"
  unfoldable pub ensure_storage : M Bool
  ensure_storage = do done ← is_initialized; if not done then Mount.init env else pure true

  -- A new, empty database where the file does not exist.
  unfoldable pub ensure_database : M Bool
  ensure_database = do
    there ← file_exists db_path
    if not there then write_database env empty_database else pure true

  unfoldable pub init : M EspErr
  init = do
    mutex ← create_mutex
    if not mutex then pure esp_fail else do
      storage ← ensure_storage
      if not storage then pure esp_fail else do
        database ← ensure_database
        if not database
            then pure esp_fail
            else do ret ← load_from_file env; if not (is_ok ret) then pure ret else pure esp_ok

  -- The loop of `load_defaults`: a card that is there already is no error.
  unfoldable pub add_each : List (ℕ × Bytes) → M EspErr
  add_each [] = pure esp_ok
  add_each ((card_id, name) ∷ cards) = do
    ret ← add_card env card_id (some name)
    if is_ok ret || is_invalid_state ret then add_each cards else pure ret

  unfoldable pub load_defaults : M EspErr
  load_defaults = do
    database ← ensure_database
    if not database then pure esp_fail else add_each default_cards

  unfoldable pub format_database : M EspErr
  format_database = do
    taken ← take_mutex env
    if not taken then pure esp_fail else do
      written ← write_database env empty_database
      if not written then leave esp_fail else do
        there ← file_exists cards_path
        if there then delete_file env cards_path >> leave esp_ok else leave esp_ok

  unfoldable pub reset_to_defaults : M EspErr
  reset_to_defaults = do
    ret ← format_database
    if not (is_ok ret)
        then pure ret
        else do loaded ← load_defaults; if not (is_ok loaded) then pure loaded else pure esp_ok
