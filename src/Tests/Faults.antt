-- ===== src/Tests/Faults.antt =====
-- The card database on a device where a file sometimes does not open, and the database as a register.
use captive_portal_esp.Base.{
  ℕ, ◌≡◌, refl, not, ◌==◌, if◌then◌else◌, some, List, [], ◌∷◌, ◌++◌, arith,
}
use captive_portal_esp.Bytes.{Bytes, codes}
use captive_portal_esp.Esp.{Env, Whole, Reliable-Whole, ◌>>◌, esp_ok, esp_fail, not_found}
use captive_portal_esp.Esp.{take_mutex, give_mutex, malloc, free, uninitialised}
use captive_portal_esp.Storage.{
  read_file, write_file, fopen_read, fopen_write, fread, fwrite, fclose_write, file_exists,
  delete_file, unlink,
}
use captive_portal_esp.Rfid.Store.{read_database, write_database, read_cards, write_cards}
use captive_portal_esp.Rfid.Card.{
  Card, FitsCard, encode_database, decode_database, encode_cards, decode_cards, encode_card,
  decode_card,
}
use captive_portal_esp.Rfid.Manage.{
  find_card, check_found, new_card, name_field, remove_first, remove_from, write_remaining,
  append_card, add_unless_present, add_card, remove_card, check_card,
}
use captive_portal_esp.Rfid.Represents.{Refines}
use captive_portal_esp.Rfid.Faults.{Shows}
use captive_portal_esp.Rfid.Faults.Check.{AnswersOrFails, check_card-AnswersOrFails}
use captive_portal_esp.Rfid.Faults.Add.{AddsOrFails, add_card-AddsOrFails}
use captive_portal_esp.Rfid.Faults.Remove.{RemovesOrFails, remove_card-RemovesOrFails}
use captive_portal_esp.Rfid.Faults.Behind.{add_card-Shows}
use captive_portal_esp.Rfid.Register.{register, granted}
use captive_portal_esp.Rfid.Register.Order.{check_card-granted}
use captive_portal_esp.Rfid.Register.Undo.{remove_card-add_card}
use captive_portal_esp.Tests.Device.{
  calm, calm-Reliable, card_of, holding, two_cards, two_cards-Represents,
}

-- The 11th call is the opening of the cards file for writing when a card is removed.
abbrev shaky : Env
shaky = record calm { fopen_ok = λ t. not (t == 11) }

shaky-Whole : Whole shaky
shaky-Whole = record {
  fread_count = λ t n. refl;
  fwrite_count = λ t n. refl;
  flush_count = λ t n. refl;
}

abbrev eve : Card
eve = card_of 9 (codes "Eve")

eve-FitsCard : FitsCard eve
unfolding name_field
eve-FitsCard = record {
  id_range = omega arith;
  active_range = omega arith;
  name_length = refl;
  padding_length = refl;
  time_range = omega arith;
}

abbrev three_cards : List Card
three_cards = two_cards ++ eve ∷ []

-- Removing Bob fails, and it is Eve who is gone.
remove_fails : (remove_card shaky 7 (holding three_cards 3)).0 ≡ esp_fail
unfolding remove_card remove_from write_remaining read_database write_database read_cards
    write_cards read_file write_file fopen_read fopen_write fread fwrite fclose_write file_exists
    delete_file unlink take_mutex give_mutex malloc free uninitialised encode_database
    decode_database encode_cards decode_cards encode_card decode_card find_card remove_first
    name_field
remove_fails = refl

wrong_card_gone :
    let after = (remove_card shaky 7 (holding three_cards 3)).1 in
    ((check_card calm 7 after).0 ≡ esp_ok) × ((check_card calm 9 after).0 ≡ not_found)
unfolding remove_card check_card check_found remove_from write_remaining read_database
    write_database read_cards write_cards read_file write_file fopen_read fopen_write fread fwrite
    fclose_write file_exists delete_file unlink take_mutex give_mutex malloc free uninitialised
    encode_database decode_database encode_cards decode_cards encode_card decode_card find_card
    remove_first name_field
wrong_card_gone = (refl, refl)

-- The second read gives nothing, and memory that nobody wrote is all 42.
abbrev blind : Env
blind = record calm { fread_count = λ t n. if t == 7 then 0 else n; garbage = λ t i. 42 }

-- A read that is short is taken for whole: an id is accepted that no card has.
garbage_accepted : (check_card blind 0x2A2A2A2A (holding two_cards 2)).0 ≡ esp_ok
unfolding check_card check_found read_database write_database read_cards write_cards read_file
    write_file fopen_read fopen_write fread fwrite fclose_write file_exists delete_file unlink
    take_mutex give_mutex malloc free uninitialised encode_database decode_database encode_cards
    decode_cards encode_card decode_card find_card remove_first name_field
garbage_accepted = refl

halfway : Shows 200 two_cards (encode_cards (eve ∷ [])) (holding three_cards 2)
unfolding encode_cards encode_card name_field
halfway = record {
  checksum = 0;
  sum_range = omega arith;
  max_range = omega arith;
  count_range = omega arith;
  fits = two_cards-Represents.fits;
  database = refl;
  body = refl;
}

check_card-AnswersOrFails_example :
    AnswersOrFails two_cards 7 (check_card shaky 7 (holding three_cards 2)).0
check_card-AnswersOrFails_example =
    check_card-AnswersOrFails shaky-Whole two_cards 7 (holding three_cards 2) halfway

add_card-AddsOrFails_example :
    AddsOrFails 200 two_cards 9
      (codes "Eve")
      (add_card shaky 9 (some (codes "Eve")) (holding two_cards 2))
add_card-AddsOrFails_example =
    add_card-AddsOrFails shaky-Whole two_cards 9 (codes "Eve") (omega arith) (holding two_cards 2)
      two_cards-Represents

remove_card-RemovesOrFails_example :
    RemovesOrFails 200 two_cards 7 (remove_card shaky 7 (holding two_cards 2))
remove_card-RemovesOrFails_example =
    remove_card-RemovesOrFails shaky-Whole two_cards 7 (holding two_cards 2) two_cards-Represents

add_card-Shows_example :
    (padding : Bytes) × (now : ℕ) × Shows 200 three_cards
      (encode_cards (new_card 5 (codes "Joe") padding now ∷ []))
      (add_card calm 5 (some (codes "Joe")) (holding three_cards 2)).1
unfolding add_card add_unless_present append_card read_database write_database read_cards
    write_cards read_file write_file fopen_read fopen_write fread fwrite fclose_write file_exists
    delete_file unlink take_mutex give_mutex malloc free uninitialised encode_database
    decode_database encode_cards decode_cards encode_card decode_card find_card remove_first
    name_field
add_card-Shows_example =
    add_card-Shows (Reliable-Whole calm-Reliable) two_cards eve [] eve-FitsCard 5 (codes "Joe")
      (omega arith) (holding three_cards 2) halfway refl

check_card-granted_example :
    (check_card calm 7 (holding two_cards 2)).0 ≡ granted 7 (register (holding two_cards 2))
check_card-granted_example =
    check_card-granted calm-Reliable two_cards 7 (holding two_cards 2) two_cards-Represents

remove_card-add_card_example :
    Refines 200
      ((add_card calm 9 (some (codes "Eve")) >> remove_card calm 9) (holding two_cards 2))
      (esp_ok, two_cards)
unfolding find_card
remove_card-add_card_example =
    remove_card-add_card calm-Reliable two_cards 9 (codes "Eve") (holding two_cards 2)
      two_cards-Represents (omega arith) (λ e. absurd (omega (arith, e))) refl (omega arith)
