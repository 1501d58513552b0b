-- ===== src/Rfid/Balance.antt =====
-- However the platform's calls end, each operation of components/rfid_manager/rfid_manager.c gives
-- the mutex as often as it took it, and frees every block that it got.
use Prim.Native.String.{String}
use captive_portal_esp.Base.{ℕ, refl, Bool, false, ◌||◌, Option, none, some, List, [], ◌∷◌, arith}
use captive_portal_esp.Bytes.{Bytes}
use captive_portal_esp.Esp.{is_ok, is_invalid_state, Env, uninitialised, ask}
use captive_portal_esp.Storage.{file_exists, get_file_size, read_file, delete_file}
use captive_portal_esp.Storage.Usage.{write_file-usage, read_file-usage, delete_file-usage}
use captive_portal_esp.Rfid.Card.{Card, Database}
use captive_portal_esp.Rfid.Closes.{
  Neutral, Closes, Closes-option, Closes-if, Closes-pure, Closes-then, closes_rules,
}
use captive_portal_esp.Rfid.Store.{
  empty_database, cards_path, read_database, write_database, read_cards, write_cards,
}
use captive_portal_esp.Rfid.Manage.{
  append_card, add_unless_present, add_card, write_remaining, remove_first, remove_from,
  remove_card, check_card,
}
use captive_portal_esp.Rfid.Json.{get_card_list_json}
use captive_portal_esp.Rfid.Query.{
  get_card_count, list_cards, save_to_file, cards_missing, load_from_file, is_database_valid,
}
use captive_portal_esp.Rfid.Setup.{
  ensure_database, add_each, load_defaults, format_database, reset_to_defaults,
}

module _ (env : Env) where
  Neutral-read_database : Neutral (read_database env)
  unfolding read_database uninitialised
  Neutral-read_database = record { same = λ w. read_file-usage env _ _ _ }

  Neutral-write_database : (db : Database) → Neutral (write_database env db)
  unfolding write_database
  Neutral-write_database db = record { same = λ w. write_file-usage env _ _ _ _ w }

  Neutral-read_cards : (n : ℕ) → Neutral (read_cards env n)
  unfolding read_cards uninitialised
  Neutral-read_cards n = record { same = λ w. read_file-usage env _ _ _ }

  Neutral-write_cards : (cs : List Card) (a : Bool) → Neutral (write_cards env cs a)
  unfolding write_cards
  Neutral-write_cards cs a = record { same = λ w. write_file-usage env _ _ _ _ w }

  Neutral-uninitialised : (n : ℕ) → Neutral (uninitialised env n)
  unfolding uninitialised
  Neutral-uninitialised n = record { same = λ w. refl }

  Neutral-time : Neutral (ask env.time)
  Neutral-time = record { same = λ w. refl }

  Neutral-write_remaining : (cs : List Card) (n : ℕ) → Neutral (write_remaining env cs n)
  unfolding write_remaining file_exists
  Neutral-write_remaining cs n = record {
    same = λ w.
        ground (arith, (Neutral-write_cards cs false).same w, delete_file-usage env cards_path w);
  }

  ruleset neutral_rules = (
    Neutral-read_database, Neutral-write_database, Neutral-read_cards, Neutral-write_cards,
    Neutral-uninitialised, Neutral-time, Neutral-write_remaining,
  )

  append_card-Closes :
      (db : Database) (card_id : ℕ) (name : Bytes) → Closes 1 0 (append_card env db card_id name)
  unfolding append_card
  append_card-Closes db card_id name = search (closes_rules, neutral_rules) depth 20

  add_unless_present-Closes :
      (db : Database) (card_id : ℕ) (name : Bytes)
      → Closes 1 0 (add_unless_present env db card_id name)
  unfolding add_unless_present
  add_unless_present-Closes db card_id name =
      search (closes_rules, neutral_rules, append_card-Closes) depth 20

  pub add_card-Closes : (card_id : ℕ) (name : Option Bytes) → Closes 0 0 (add_card env card_id name)
  unfolding add_card
  add_card-Closes card_id none = search closes_rules
  add_card-Closes card_id (some name) =
      search (closes_rules, neutral_rules, add_unless_present-Closes) depth 20

  remove_from-Closes :
      (db : Database) (card_id : ℕ) (cards : List Card)
      → Closes 1 1 (remove_from env db card_id cards)
  unfolding remove_from
  remove_from-Closes db card_id cards =
      Closes-option (remove_first card_id cards) _ _ (search closes_rules)
        (λ left. search (closes_rules, neutral_rules) depth 20)

  pub remove_card-Closes : (card_id : ℕ) → Closes 0 0 (remove_card env card_id)
  unfolding remove_card
  remove_card-Closes card_id = search (closes_rules, neutral_rules, remove_from-Closes) depth 20

  pub check_card-Closes : (card_id : ℕ) → Closes 0 0 (check_card env card_id)
  unfolding check_card
  check_card-Closes card_id = search (closes_rules, neutral_rules) depth 20

  Neutral-file_exists : (name : String) → Neutral (file_exists name)
  unfolding file_exists
  Neutral-file_exists name = record { same = λ w. refl }

  Neutral-get_file_size : (name : String) → Neutral (get_file_size name)
  unfolding get_file_size
  Neutral-get_file_size name = record { same = λ w. refl }

  Neutral-read_file : (name : String) (buffer : Bytes) → Neutral (read_file env name buffer)
  Neutral-read_file name buffer = record { same = λ w. read_file-usage env _ _ _ }

  Neutral-delete_file : (name : String) → Neutral (delete_file env name)
  Neutral-delete_file name = record { same = λ w. delete_file-usage env _ _ }

  Neutral-cards_missing : (db : Database) → Neutral (cards_missing env db)
  unfolding cards_missing file_exists
  Neutral-cards_missing db = record { same = λ w. ground arith }

  ruleset more_rules = (
    neutral_rules, Neutral-file_exists, Neutral-get_file_size, Neutral-read_file,
    Neutral-delete_file, Neutral-cards_missing,
  )

  pub get_card_count-Closes : Closes 0 0 (get_card_count env)
  unfolding get_card_count
  get_card_count-Closes = search (closes_rules, more_rules) depth 20

  pub list_cards-Closes : (buffer : Option Bytes) (max : ℕ) → Closes 0 0 (list_cards env buffer max)
  unfolding list_cards
  list_cards-Closes none max = search closes_rules
  list_cards-Closes (some buffer) max = search (closes_rules, more_rules) depth 20

  pub get_card_list_json-Closes :
      (buffer : Option Bytes) (max : ℕ) → Closes 0 0 (get_card_list_json env buffer max)
  unfolding get_card_list_json
  get_card_list_json-Closes none max = search closes_rules
  get_card_list_json-Closes (some buffer) max = search (closes_rules, more_rules) depth 30

  pub save_to_file-Closes : Closes 0 0 (save_to_file env)
  unfolding save_to_file
  save_to_file-Closes = search (closes_rules, more_rules) depth 20

  pub load_from_file-Closes : Closes 0 0 (load_from_file env)
  unfolding load_from_file
  load_from_file-Closes = search (closes_rules, more_rules) depth 20

  pub is_database_valid-Closes : Closes 0 0 (is_database_valid env)
  unfolding is_database_valid
  is_database_valid-Closes = search (closes_rules, more_rules) depth 20

  pub format_database-Closes : Closes 0 0 (format_database env)
  unfolding format_database
  format_database-Closes = search (closes_rules, more_rules) depth 20

  ensure_database-Closes : Closes 0 0 (ensure_database env)
  unfolding ensure_database file_exists
  ensure_database-Closes = record {
    closed = λ w. let c = Neutral-write_database empty_database in ground (arith, c.same w);
  }

  add_each-Closes : (cards : List (ℕ × Bytes)) → Closes 0 0 (add_each env cards)
  unfolding add_each
  add_each-Closes [] = search closes_rules
  add_each-Closes ((card_id, name) ∷ cards) =
      Closes-then _ _ (add_card-Closes card_id (some name)) (λ ret.
        Closes-if (is_ok ret || is_invalid_state ret) _ _ (add_each-Closes cards) (Closes-pure ret))

  pub load_defaults-Closes : Closes 0 0 (load_defaults env)
  unfolding load_defaults
  load_defaults-Closes =
      search (closes_rules, Closes-then, ensure_database-Closes, add_each-Closes) depth 10

  pub reset_to_defaults-Closes : Closes 0 0 (reset_to_defaults env)
  unfolding reset_to_defaults
  reset_to_defaults-Closes =
      search (closes_rules, Closes-then, format_database-Closes, load_defaults-Closes) depth 10
