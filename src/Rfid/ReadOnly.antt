-- ===== src/Rfid/ReadOnly.antt =====
-- The operations of components/rfid_manager/rfid_manager.c that only look leave every file as it is, however the
-- platform's calls end.
use Prim.Native.String.{String}
use captive_portal_esp.Base.{
  ℕ, ◌≡◌, refl, ◌∙◌, Bool, true, false, Option, none, some, List, [], ◌∷◌, if◌then◌else◌, arith,
}
use captive_portal_esp.Bytes.{Bytes}
use captive_portal_esp.Esp.{
  Env, World, M, pure, ◌>>=◌, ◌>>◌, take_mutex, give_mutex, malloc, free, uninitialised,
}
use captive_portal_esp.Storage.{file_exists, get_file_size, read_file}
use captive_portal_esp.Rfid.Card.{Database}
use captive_portal_esp.Rfid.Store.{read_database, read_cards, leave, free_and_leave}
use captive_portal_esp.Rfid.Manage.{check_card}
use captive_portal_esp.Rfid.Json.{get_card_list_json}
use captive_portal_esp.Rfid.Query.{
  get_card_count, list_cards, load_from_file, cards_missing, is_database_valid,
}
use captive_portal_esp.Rfid.Requests.{Request, Reply, serve, serve_all}

-- `m` leaves the files alone.
record Looks {A : Type 0} (m : M A) : Type 0 where
  same : (w : World) → (m w).1.files ≡ w.files

module _ {A : Type 0} where
  Looks-pure : (a : A) → Looks (pure a)
  Looks-pure a = record { same = λ w. refl }

  Looks-leave : (a : A) → Looks (leave a)
  unfolding give_mutex
  Looks-leave a = record { same = λ w. refl }

  Looks-free_and_leave : (a : A) → Looks (free_and_leave a)
  unfolding give_mutex free
  Looks-free_and_leave a = record { same = λ w. refl }

  Looks-if : (c : Bool) (m n : M A) → Looks m → Looks n → Looks (if c then m else n)
  Looks-if true m n p q = p
  Looks-if false m n p q = q

  Looks-free : (m : M A) → Looks m → Looks (free >> m)
  unfolding free
  Looks-free m p = record { same = λ w. p.same (free w).1 }

  Looks-bind :
      {B : Type 0} (m : M B) (f : B → M A) → Looks m → ((b : B) → Looks (f b)) → Looks (m >>= f)
  Looks-bind m f p q = record { same = λ w. (q (m w).0).same (m w).1 ∙ p.same w }

module _ (env : Env) where
  Looks-take : Looks (take_mutex env)
  unfolding take_mutex
  Looks-take = record { same = λ w. refl }

  Looks-malloc : Looks (malloc env)
  unfolding malloc
  Looks-malloc = record { same = λ w. refl }

  Looks-read_file : (name : String) (b : Bytes) → Looks (read_file env name b)
  unfolding read_file
  Looks-read_file name b = record { same = λ w. ground arith }

  Looks-read_database : Looks (read_database env)
  unfolding read_database uninitialised
  Looks-read_database = record { same = λ w. (Looks-read_file _ _).same _ }

  Looks-read_cards : (n : ℕ) → Looks (read_cards env n)
  unfolding read_cards uninitialised
  Looks-read_cards n = record { same = λ w. (Looks-read_file _ _).same _ }

  Looks-file_exists : (name : String) → Looks (file_exists name)
  unfolding file_exists
  Looks-file_exists name = record { same = λ w. refl }

  Looks-get_file_size : (name : String) → Looks (get_file_size name)
  unfolding get_file_size
  Looks-get_file_size name = record { same = λ w. refl }

  Looks-cards_missing : (db : Database) → Looks (cards_missing env db)
  unfolding cards_missing
  Looks-cards_missing db = search (Looks-if, Looks-pure, Looks-bind, Looks-file_exists)

  ruleset looks_rules = (
    Looks-pure, Looks-leave, Looks-free_and_leave, Looks-if, Looks-free, Looks-take, Looks-malloc,
    Looks-read_file, Looks-read_database, Looks-read_cards, Looks-file_exists, Looks-get_file_size,
    Looks-cards_missing, Looks-bind,
  )

  check_card-Looks : (card_id : ℕ) → Looks (check_card env card_id)
  unfolding check_card
  check_card-Looks card_id = search looks_rules depth 20

  get_card_count-Looks : Looks (get_card_count env)
  unfolding get_card_count
  get_card_count-Looks = search looks_rules depth 20

  list_cards-Looks : (buffer : Option Bytes) (max : ℕ) → Looks (list_cards env buffer max)
  unfolding list_cards
  list_cards-Looks none max = search looks_rules
  list_cards-Looks (some buffer) max = search looks_rules depth 20

  get_card_list_json-Looks :
      (buffer : Option Bytes) (max : ℕ) → Looks (get_card_list_json env buffer max)
  unfolding get_card_list_json
  get_card_list_json-Looks none max = search looks_rules
  get_card_list_json-Looks (some buffer) max = search looks_rules depth 30

  load_from_file-Looks : Looks (load_from_file env)
  unfolding load_from_file
  load_from_file-Looks = search looks_rules depth 20

  is_database_valid-Looks : Looks (is_database_valid env)
  unfolding is_database_valid
  is_database_valid-Looks = search looks_rules depth 20

  -- The requests that only look.
  abbrev pub only_looks : Request → Bool
  only_looks (Request.check card_id) = true
  only_looks Request.count = true
  only_looks Request.load = true
  only_looks Request.valid = true
  only_looks (Request.list max_cards) = true
  only_looks (Request.list_json size) = true
  only_looks _ = false

  abbrev pub OnlyLook : List Request → Type 0
  OnlyLook [] = Unit
  OnlyLook (r ∷ rs) = (only_looks r ≡ true) × OnlyLook rs

  Looks-reply : {A : Type 0} (m : M A) (f : A → Reply) → Looks m → Looks (m >>= λ a. pure (f a))
  Looks-reply m f p = Looks-bind m (λ a. pure (f a)) p (λ a. Looks-pure (f a))

  serve-Looks : (r : Request) → only_looks r ≡ true → Looks (serve env r)
  unfolding serve
  serve-Looks (Request.check card_id) h = Looks-reply _ Reply.code (check_card-Looks card_id)
  serve-Looks Request.count h = Looks-reply _ Reply.number get_card_count-Looks
  serve-Looks Request.load h = Looks-reply _ Reply.code load_from_file-Looks
  serve-Looks Request.valid h = Looks-reply _ Reply.answer is_database_valid-Looks
  serve-Looks (Request.list max_cards) h =
      Looks-reply _ (λ x. Reply.filled x.0 x.1) (list_cards-Looks _ max_cards)
  serve-Looks (Request.list_json size) h =
      Looks-reply _ (λ x. Reply.filled x.0 x.1) (get_card_list_json-Looks _ size)
  serve-Looks (Request.add card_id name) h = cc
  serve-Looks (Request.remove card_id) h = cc
  serve-Looks Request.save h = cc
  serve-Looks Request.format h = cc
  serve-Looks Request.defaults h = cc
  serve-Looks Request.reset h = cc

  serve_all-Looks : (rs : List Request) → OnlyLook rs → Looks (serve_all env rs)
  unfolding serve_all
  serve_all-Looks [] h = Looks-pure []
  serve_all-Looks (r ∷ rs) (h, hs) =
      Looks-bind _ _ (serve-Looks r h)
        (λ reply. Looks-bind _ _ (serve_all-Looks rs hs) (λ replies. Looks-pure (reply ∷ replies)))

  -- However the platform's calls end, calls that check, count, list, print, load or validate the
  -- cards leave every file as it is.
  pub lookups_keep_files :
      (requests : List Request) (w : World)
      → OnlyLook requests
      → (serve_all env requests w).1.files ≡ w.files
  lookups_keep_files requests w h = (serve_all-Looks requests h).same w
