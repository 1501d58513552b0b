-- ===== src/Rfid/Requests.antt =====
-- Calls of components/rfid_manager/rfid_manager.c as its clients make them, one behind another.
use captive_portal_esp.Base.{ℕ, ◌*◌, Bool, Option, some, List, [], ◌∷◌}
use captive_portal_esp.Bytes.{Bytes}
use captive_portal_esp.Text.{zeros}
use captive_portal_esp.Esp.{EspErr, Env, M, pure, ◌>>=◌}
use captive_portal_esp.Rfid.Manage.{add_card, remove_card, check_card}
use captive_portal_esp.Rfid.Query.{
  get_card_count, list_cards, save_to_file, load_from_file, is_database_valid,
}
use captive_portal_esp.Rfid.Json.{get_card_list_json}
use captive_portal_esp.Rfid.Setup.{load_defaults, format_database, reset_to_defaults}

-- A call of each function of rfid_manager.h but `rfid_manager_init`. The buffers of the two listings
-- are the caller's; their first content does not matter, and is zeros here.
pub data Request : Type 0 where
  add : ℕ → Option Bytes → Request
  remove check : ℕ → Request
  count save load valid format defaults reset : Request
  list list_json : ℕ → Request

pub data Reply : Type 0 where
  code : EspErr → Reply
  number : ℕ → Reply
  answer : Bool → Reply
  filled : EspErr → Bytes → Reply

module _ (env : Env) where
  unfoldable pub serve : Request → M Reply
  serve (add card_id name) = do r ← add_card env card_id name; pure (code r)
  serve (remove card_id) = do r ← remove_card env card_id; pure (code r)
  serve (check card_id) = do r ← check_card env card_id; pure (code r)
  serve count = do n ← get_card_count env; pure (number n)
  serve save = do r ← save_to_file env; pure (code r)
  serve load = do r ← load_from_file env; pure (code r)
  serve valid = do b ← is_database_valid env; pure (answer b)
  serve format = do r ← format_database env; pure (code r)
  serve defaults = do r ← load_defaults env; pure (code r)
  serve reset = do r ← reset_to_defaults env; pure (code r)
  serve (list max_cards) = do
    (r, after) ← list_cards env (some (zeros (max_cards * 44))) max_cards
    pure (filled r after)
  serve (list_json size) = do
    (r, after) ← get_card_list_json env (some (zeros size)) size
    pure (filled r after)

  unfoldable pub serve_all : List Request → M (List Reply)
  serve_all [] = pure []
  serve_all (request ∷ requests) = do
    reply ← serve request
    replies ← serve_all requests
    pure (reply ∷ replies)
