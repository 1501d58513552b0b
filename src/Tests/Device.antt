-- ===== src/Tests/Device.antt =====
-- A platform on which nothing fails, a device just started, and one that holds two cards.
use captive_portal_esp.Base.{ℕ, ◌+◌, refl, true, false, none, some, List, [], ◌∷◌, arith}
use captive_portal_esp.Bytes.{Bytes, codes}
use captive_portal_esp.Esp.{esp_ok, Env, World, Reliable, update}
use captive_portal_esp.Rfid.Card.{Card, encode_cards, encode_database}
use captive_portal_esp.Rfid.Store.{db_path, cards_path}
use captive_portal_esp.Rfid.Manage.{new_card, name_field}
use captive_portal_esp.Rfid.Represents.{Represents, header}
use captive_portal_esp.Rfid.Entries.{Terminated}

abbrev pub calm : Env
calm = record {
  semaphore_created = λ t. true;
  semaphore_taken = λ t. true;
  malloc_ok = λ t. true;
  fopen_ok = λ t. true;
  fread_count = λ t n. n;
  fwrite_count = λ t n. n;
  flush_count = λ t n. n;
  unlink_ok = λ t. true;
  rename_ok = λ t. true;
  opendir_ok = λ t. true;
  spiffs_register = λ t. esp_ok;
  spiffs_unregister = λ t. esp_ok;
  spiffs_check = λ t. esp_ok;
  spiffs_info = λ t. esp_ok;
  spiffs_format = λ t. esp_ok;
  driver_files = λ t files. files;
  spiffs_total = λ t. 1000;
  spiffs_used = λ t. 10;
  time = λ t. 1700000000 + t;
  garbage = λ t i. 170;
}

pub calm-Reliable : Reliable calm
calm-Reliable = record {
  semaphore_created = λ t. refl;
  semaphore_taken = λ t. refl;
  malloc_ok = λ t. refl;
  fopen_ok = λ t. refl;
  fread_count = λ t n. refl;
  fwrite_count = λ t n. refl;
  flush_count = λ t n. refl;
  unlink_ok = λ t. refl;
}

abbrev pub fresh : World
fresh = record {
  files = λ name. none;
  tick = 0;
  usage = record { takes = 0; gives = 0; mallocs = 0; frees = 0 };
  spiffs_initialized = false;
  rfid_mutex = false;
}

abbrev pub card_of : ℕ → Bytes → Card
card_of card_id name = new_card card_id name (1 ∷ 2 ∷ 3 ∷ []) 99

-- the admin card and one more
abbrev pub two_cards : List Card
two_cards = card_of 0x12345678 (codes "Admin") ∷ card_of 7 (codes "Bob") ∷ []

-- A device whose files hold these cards, of a database for 200.
abbrev pub holding : List Card → ℕ → World
holding cards count = record fresh {
  files =
      update (update (λ name. none) db_path (some (encode_database (header count 200 0))))
        cards_path (some (encode_cards cards));
  spiffs_initialized = true;
  rfid_mutex = true;
}

pub two_cards-Represents : Represents 200 two_cards (holding two_cards 2)
unfolding name_field
two_cards-Represents = record {
  checksum = 0;
  sum_range = omega arith;
  max_range = omega arith;
  room = omega arith;
  fits = (
    record {
      id_range = omega arith;
      active_range = omega arith;
      name_length = refl;
      padding_length = refl;
      time_range = omega arith;
    },
    (
      record {
        id_range = omega arith;
        active_range = omega arith;
        name_length = refl;
        padding_length = refl;
        time_range = omega arith;
      },
      tt,
    ),
  );
  database = refl;
  body = refl;
}

pub two_cards-Terminated : Terminated two_cards
unfolding name_field
two_cards-Terminated = (omega arith, (omega arith, tt))

-- The file system is mounted, and no file is there.
abbrev pub mounted : World
mounted = record fresh { spiffs_initialized = true; rfid_mutex = true }
