-- ===== src/Tests/Valid.antt =====
-- The test of the card database, on files that hold cards and on files that hold more than they count.
use captive_portal_esp.Base.{◌≡◌, refl, Bool, true, ◌&&◌, ltb, some, [], ◌∷◌, arith}
use captive_portal_esp.Bytes.{Bytes, codes}
use captive_portal_esp.Esp.{esp_ok, not_found}
use captive_portal_esp.Esp.{take_mutex, give_mutex, malloc, free, uninitialised}
use captive_portal_esp.Storage.{
  read_file, write_file, fopen_read, fopen_write, fread, fwrite, fclose_write, file_exists,
  get_file_size, delete_file, unlink,
}
use captive_portal_esp.Rfid.Store.{read_database, write_database, read_cards, write_cards}
use captive_portal_esp.Rfid.Card.{
  encode_database, decode_database, encode_cards, decode_cards, encode_card, decode_card,
}
use captive_portal_esp.Rfid.Manage.{
  find_card, check_found, name_field, append_card, add_unless_present, add_card, check_card,
}
use captive_portal_esp.Rfid.Decoded.{Octets}
use captive_portal_esp.Rfid.Query.{is_database_valid, cards_missing}
use captive_portal_esp.Rfid.Refine.{is_database_valid_refines}
use captive_portal_esp.Rfid.Represents.{header}
use captive_portal_esp.Rfid.Valid.{Valid, is_database_valid-Valid}
use captive_portal_esp.Tests.Device.{calm, calm-Reliable, holding, two_cards, two_cards-Represents}

abbrev are_octets : Bytes → Bool
are_octets [] = true
are_octets (c ∷ cs) = ltb c 256 && are_octets cs

octets_lem : (b : Bytes) → are_octets b ≡ true → Octets b
octets_lem [] h = tt
octets_lem (c ∷ cs) h = (ground arith, octets_lem cs (ground arith))

abbrev two_counted : Bytes
two_counted = encode_database (header 2 200 0)

two_counted-octets : are_octets two_counted ≡ true
unfolding encode_database
two_counted-octets = refl

two_cards-octets : are_octets (encode_cards two_cards) ≡ true
unfolding encode_cards encode_card name_field
two_cards-octets = refl

is_database_valid-Valid_example : Valid (holding two_cards 2)
unfolding encode_database
is_database_valid-Valid_example =
    is_database_valid-Valid (holding two_cards 2) two_counted refl refl
      (octets_lem two_counted two_counted-octets) calm-Reliable
      (octets_lem (encode_cards two_cards) two_cards-octets)
      (is_database_valid_refines calm-Reliable two_cards (holding two_cards 2)
        two_cards-Represents).0

-- A header that counts none, over a file of two cards, is called valid; a card that is then added is not found,
-- and one that was left behind is.
none_counted_valid : (is_database_valid calm (holding two_cards 0)).0 ≡ true
unfolding is_database_valid cards_missing get_file_size read_database read_file fopen_read fread
    file_exists take_mutex give_mutex uninitialised encode_database decode_database encode_cards
    encode_card name_field
none_counted_valid = refl

left_behind_found :
    let (code, after) = add_card calm 9 (some (codes "Eve")) (holding two_cards 0) in
    (code ≡ esp_ok)
    × ((check_card calm 9 after).0 ≡ not_found)
    × ((check_card calm 0x12345678 after).0 ≡ esp_ok)
unfolding add_card add_unless_present append_card check_card check_found read_database
    write_database read_cards write_cards read_file write_file fopen_read fopen_write fread fwrite
    fclose_write file_exists delete_file unlink take_mutex give_mutex malloc free uninitialised
    encode_database decode_database encode_cards decode_cards encode_card decode_card find_card
    name_field
left_behind_found = (refl, refl, refl)
