-- ===== src/Rfid/Query.antt =====
-- The reading half of components/rfid_manager/rfid_manager.c: `rfid_manager_get_card_count`,
-- `rfid_manager_list_cards`, `rfid_manager_save_to_file`, `rfid_manager_load_from_file` and
-- `rfid_manager_is_database_valid`.
use captive_portal_esp.Base.{
  ℕ, zero, suc, ◌+◌, ◌*◌, ◌%◌, ◌^◌, Bool, false, not, ◌&&◌, Option, none, some, [], ◌++◌, ltb, ◌==◌,
  if◌then◌else◌, take, drop,
}
use captive_portal_esp.Bytes.{Bytes}
use captive_portal_esp.Esp.{
  EspErr, esp_ok, esp_fail, no_mem, invalid_arg, invalid_state, not_found, Env, M, pure, ◌>>=◌,
  take_mutex,
}
use captive_portal_esp.Storage.{file_exists, get_file_size, read_file}
use captive_portal_esp.Rfid.Card.{Database, card_size}
use captive_portal_esp.Rfid.Store.{db_path, cards_path, leave, read_database, write_database}

-- the loop of `save_to_file`, with `n` rounds left: `db.checksum += i` on a `uint32_t`
unfoldable pub sum_indices : ℕ → ℕ → ℕ → ℕ
sum_indices zero i sum = sum
sum_indices (suc n) i sum = sum_indices n (i + 1) ((sum + i) % 2 ^ 32)

-- `actual_size != expected_size`, where `none` is -1
abbrev pub has_size : ℕ → Option ℕ → Bool
has_size expected none = false
has_size expected (some actual) = actual == expected

module _ (env : Env) where
  unfoldable pub get_card_count : M ℕ
  get_card_count = do
    taken ← take_mutex env
    if not taken
        then pure 0
        else do (ok, db) ← read_database env; if not ok then leave 0 else leave db.card_count

  -- The caller's buffer, `none` for NULL, and what it holds afterwards.
  unfoldable pub list_cards : Option Bytes → ℕ → M (EspErr × Bytes)
  list_cards none max_cards = pure (invalid_arg, [])
  list_cards (some cards) max_cards = do
    taken ← take_mutex env
    if not taken then pure (esp_fail, cards) else do
      (ok, db) ← read_database env
      if not ok
          then leave (esp_fail, cards)
          else if ltb max_cards db.card_count
          then leave (no_mem, cards)
          else if db.card_count == 0
          then leave (esp_ok, cards)
          else do
            let size = db.card_count * card_size
            (read_ok, bytes) ← read_file env cards_path (take size cards)
            let after = bytes ++ drop size cards
            if not read_ok then leave (esp_fail, after) else leave (esp_ok, after)

  unfoldable pub save_to_file : M EspErr
  save_to_file = do
    taken ← take_mutex env
    if not taken then pure esp_fail else do
      (ok, db) ← read_database env
      if not ok then leave esp_fail else do
        written ← write_database env (record db { checksum = sum_indices db.card_count 0 0 })
        if not written then leave esp_fail else leave esp_ok

  -- `db.card_count > 0 && !spiffs_storage_file_exists(RFID_CARDS_PATH)`
  unfoldable pub cards_missing : Database → M Bool
  cards_missing db =
      if ltb 0 db.card_count
      then (do there ← file_exists cards_path; pure (not there))
      else pure false

  unfoldable pub load_from_file : M EspErr
  load_from_file = do
    taken ← take_mutex env
    if not taken then pure esp_fail else do
      there ← file_exists db_path
      if not there then leave not_found else do
        (ok, db) ← read_database env
        if not ok
            then leave esp_fail
            else if ltb db.max_cards db.card_count
            then leave invalid_state
            else do
              missing ← cards_missing db
              if missing then leave invalid_state else leave esp_ok

  unfoldable pub is_database_valid : M Bool
  is_database_valid = do
    taken ← take_mutex env
    if not taken then pure false else do
      there ← file_exists db_path
      if not there then leave false else do
        (ok, db) ← read_database env
        if not ok then leave false else if ltb db.max_cards db.card_count then leave false else do
          missing ← cards_missing db
          if missing then leave false else do
            actual_size ← get_file_size cards_path
            leave (
                not (ltb 0 db.card_count && not (has_size (db.card_count * card_size) actual_size)))
