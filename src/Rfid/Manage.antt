-- ===== src/Rfid/Manage.antt =====
-- `rfid_manager_add_card`, `rfid_manager_remove_card` and `rfid_manager_check_card` of
-- components/rfid_manager/rfid_manager.c.
use captive_portal_esp.Base.{
  ℕ, ◌+◌, ◌-◌, ◌%◌, ◌^◌, Bool, true, false, not, Option, none, some, List, [], ◌∷◌, ◌++◌, ltb, ◌==◌,
  if◌then◌else◌, take, length, replicate,
}
use captive_portal_esp.Bytes.{Bytes, c_string}
use captive_portal_esp.Esp.{
  EspErr, esp_ok, esp_fail, no_mem, invalid_arg, invalid_state, not_found, not_supported, Env, M,
  pure, ◌>>=◌, ◌>>◌, ask, take_mutex, malloc, uninitialised, free,
}
use captive_portal_esp.Storage.{file_exists, delete_file}
use captive_portal_esp.Rfid.Card.{Card, Database}
use captive_portal_esp.Rfid.Store.{
  cards_path, leave, free_and_leave, read_database, write_database, read_cards, write_cards,
}

-- ADMIN_CARD_ID
abbrev pub admin_card_id : ℕ
admin_card_id = 0x12345678

-- The loop that looks for `card_id`: the first card with this id.
unfoldable pub find_card : ℕ → List Card → Option Card
find_card card_id [] = none
find_card card_id (c ∷ cs) = if c.card_id == card_id then some c else find_card card_id cs

abbrev pub is_found : Option Card → Bool
is_found none = false
is_found (some _) = true

-- `strncpy(new_card.name, name, 31)` into zeros, and the terminating NUL
unfoldable pub name_field : Bytes → Bytes
name_field name = let text = take 31 (c_string name) in text ++ replicate (32 - length text) 0

-- `new_card`: the padding is whatever the stack held.
abbrev pub new_card : ℕ → Bytes → Bytes → ℕ → Card
new_card card_id name padding now = record {
  card_id = card_id;
  active = 1;
  name = name_field name;
  padding = padding;
  timestamp = now % 2 ^ 32;
}

-- The loop that looks for `card_id`, shifts the cards behind it down by one and stops: the cards
-- that are left, if it was found.
unfoldable pub remove_first : ℕ → List Card → Option (List Card)
remove_first card_id [] = none
remove_first card_id (c ∷ cs) =
    if c.card_id == card_id
    then some cs
    else elim (remove_first card_id cs) [ none ↦ none | some left ↦ some (c ∷ left) ]

-- The result of `rfid_manager_check_card` on the cards read.
unfoldable pub check_found : Option Card → EspErr
check_found none = not_found
check_found (some c) = if c.active == 0 then invalid_state else esp_ok

-- `db.card_count++` and `db.card_count--` on a `uint16_t`
abbrev pub one_more : Database → Database
one_more db = record db { card_count = (db.card_count + 1) % 2 ^ 16 }

abbrev pub one_less : Database → Database
one_less db = record db { card_count = (db.card_count + 2 ^ 16 - 1) % 2 ^ 16 }

module _ (env : Env) where
  -- "Add the new card": the header first, then the card, and the header again if that failed.
  unfoldable pub append_card : Database → ℕ → Bytes → M EspErr
  append_card db card_id name = if not (ltb db.card_count db.max_cards) then leave no_mem else do
    padding ← uninitialised env 3
    now ← ask env.time
    updated ← write_database env (one_more db)
    if not updated then leave esp_fail else do
      written ← write_cards env (new_card card_id name padding now ∷ []) true
      if not written
          then (write_database env (one_less (one_more db)) >> leave esp_fail)
          else leave esp_ok

  -- "Check if the card already exists"
  unfoldable pub add_unless_present : Database → ℕ → Bytes → M EspErr
  add_unless_present db card_id name =
      if db.card_count == 0 then append_card db card_id name else do
        got ← malloc env
        if not got then leave no_mem else do
          (ok, cards) ← read_cards env db.card_count
          if not ok
              then free_and_leave esp_fail
              else if is_found (find_card card_id cards)
              then free_and_leave invalid_state
              else (free >> append_card db card_id name)

  -- `none` is a NULL name.
  unfoldable pub add_card : ℕ → Option Bytes → M EspErr
  add_card card_id none = pure invalid_arg
  add_card card_id (some name) = do
    taken ← take_mutex env
    if not taken then pure esp_fail else do
      (ok, db) ← read_database env
      if not ok then leave esp_fail else add_unless_present db card_id name

  -- "Write the updated cards back to file or delete if no cards remain"
  unfoldable pub write_remaining : List Card → ℕ → M Bool
  write_remaining cards count = if ltb 0 count then write_cards env cards false else do
    there ← file_exists cards_path
    if there then delete_file env cards_path else pure true

  -- from "Find and remove the card"
  unfoldable pub remove_from : Database → ℕ → List Card → M EspErr
  remove_from db card_id cards = elim (remove_first card_id cards) [
    | none ↦ free_and_leave not_found
    | some left ↦ do
      updated ← write_database env (one_less db)
      if not updated then free_and_leave esp_fail else do
        write_ok ← write_remaining left (one_less db).card_count
        free
        if not write_ok then leave esp_fail else leave esp_ok
  ]

  unfoldable pub remove_card : ℕ → M EspErr
  remove_card card_id = if card_id == admin_card_id then pure not_supported else do
    taken ← take_mutex env
    if not taken then pure esp_fail else do
      (ok, db) ← read_database env
      if not ok then leave esp_fail else if db.card_count == 0 then leave not_found else do
        got ← malloc env
        if not got then leave no_mem else do
          (read_ok, cards) ← read_cards env db.card_count
          if not read_ok then free_and_leave esp_fail else remove_from db card_id cards

  unfoldable pub check_card : ℕ → M EspErr
  check_card card_id = do
    taken ← take_mutex env
    if not taken then pure esp_fail else do
      (ok, db) ← read_database env
      if not ok then leave esp_fail else if db.card_count == 0 then leave not_found else do
        got ← malloc env
        if not got then leave no_mem else do
          (read_ok, cards) ← read_cards env db.card_count
          if not read_ok
              then free_and_leave esp_fail
              else free_and_leave (check_found (find_card card_id cards))
