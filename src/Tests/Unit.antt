-- ===== src/Tests/Unit.antt =====
-- The cases of components/rfid_manager/test/test_rfid_manager.c that are short, run on a device where nothing fails.
use captive_portal_esp.Base.{ℕ, ◌≡◌, refl, some, [], ◌∷◌}
use captive_portal_esp.Bytes.{codes}
use captive_portal_esp.Esp.{
  esp_ok, not_found, not_supported, take_mutex, give_mutex, malloc, free, uninitialised,
}
use captive_portal_esp.Storage.{
  read_file, write_file, fopen_read, fopen_write, fread, fwrite, fclose_write, file_exists,
  delete_file, unlink,
}
use captive_portal_esp.Rfid.Store.{read_database, write_database, read_cards, write_cards}
use captive_portal_esp.Rfid.Card.{
  encode_database, decode_database, encode_cards, decode_cards, encode_card, decode_card,
}
use captive_portal_esp.Rfid.Manage.{
  admin_card_id, find_card, check_found, name_field, remove_first, remove_from, write_remaining,
  append_card, add_unless_present, add_card, remove_card, check_card,
}
use captive_portal_esp.Rfid.Query.{get_card_count}
use captive_portal_esp.Rfid.Setup.{format_database, load_defaults, add_each, ensure_database}
use captive_portal_esp.Rfid.Requests.{Request, Reply, serve, serve_all}
use captive_portal_esp.Tests.Device.{calm, mounted}

abbrev user_card_id : ℕ
user_card_id = 0x87654321

abbrev add_admin : Request
add_admin = Request.add admin_card_id (some (codes "Test Card 1"))

-- "Remove Card" expects ESP_OK for the removal, but the id is the admin card's.
remove_card_case :
    (serve_all calm
      (Request.format
        ∷ add_admin
        ∷ Request.remove admin_card_id
        ∷ Request.count
        ∷ Request.check admin_card_id
        ∷ [])
      mounted).0
    ≡ Reply.code esp_ok
      ∷ Reply.code esp_ok
      ∷ Reply.code not_supported
      ∷ Reply.number 1
      ∷ Reply.code esp_ok
      ∷ []
unfolding serve_all serve format_database add_card add_unless_present append_card check_card
    check_found remove_card remove_from write_remaining get_card_count load_defaults add_each
    ensure_database read_database write_database read_cards write_cards read_file write_file
    fopen_read fopen_write fread fwrite fclose_write file_exists delete_file unlink take_mutex
    give_mutex malloc free uninitialised encode_database decode_database encode_cards decode_cards
    encode_card decode_card find_card remove_first name_field
remove_card_case = refl

-- "Check Card"
check_card_case :
    (serve_all calm
      (Request.format ∷ Request.check admin_card_id ∷ add_admin ∷ Request.check admin_card_id ∷ [])
      mounted).0
    ≡ Reply.code esp_ok ∷ Reply.code not_found ∷ Reply.code esp_ok ∷ Reply.code esp_ok ∷ []
unfolding serve_all serve format_database add_card add_unless_present append_card check_card
    check_found remove_card remove_from write_remaining get_card_count load_defaults add_each
    ensure_database read_database write_database read_cards write_cards read_file write_file
    fopen_read fopen_write fread fwrite fclose_write file_exists delete_file unlink take_mutex
    give_mutex malloc free uninitialised encode_database decode_database encode_cards decode_cards
    encode_card decode_card find_card remove_first name_field
check_card_case = refl

-- "Get Card Count"
get_card_count_case :
    (serve_all calm
      (Request.format
        ∷ Request.count
        ∷ add_admin
        ∷ Request.count
        ∷ Request.add user_card_id (some (codes "Test Card 2"))
        ∷ Request.count
        ∷ [])
      mounted).0
    ≡ Reply.code esp_ok
      ∷ Reply.number 0
      ∷ Reply.code esp_ok
      ∷ Reply.number 1
      ∷ Reply.code esp_ok
      ∷ Reply.number 2
      ∷ []
unfolding serve_all serve format_database add_card add_unless_present append_card check_card
    check_found remove_card remove_from write_remaining get_card_count load_defaults add_each
    ensure_database read_database write_database read_cards write_cards read_file write_file
    fopen_read fopen_write fread fwrite fclose_write file_exists delete_file unlink take_mutex
    give_mutex malloc free uninitialised encode_database decode_database encode_cards decode_cards
    encode_card decode_card find_card remove_first name_field
get_card_count_case = refl

-- "Load Defaults"
load_defaults_case :
    (serve_all calm
      (Request.format
        ∷ Request.defaults
        ∷ Request.count
        ∷ Request.check admin_card_id
        ∷ Request.check user_card_id
        ∷ Request.check 0xABCDEF00
        ∷ [])
      mounted).0
    ≡ Reply.code esp_ok
      ∷ Reply.code esp_ok
      ∷ Reply.number 3
      ∷ Reply.code esp_ok
      ∷ Reply.code esp_ok
      ∷ Reply.code esp_ok
      ∷ []
unfolding serve_all serve format_database add_card add_unless_present append_card check_card
    check_found remove_card remove_from write_remaining get_card_count load_defaults add_each
    ensure_database read_database write_database read_cards write_cards read_file write_file
    fopen_read fopen_write fread fwrite fclose_write file_exists delete_file unlink take_mutex
    give_mutex malloc free uninitialised encode_database decode_database encode_cards decode_cards
    encode_card decode_card find_card remove_first name_field
load_defaults_case = refl
