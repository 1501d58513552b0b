-- ===== src/Server/Portal.antt =====
-- What the handlers of requests on cards of components/app_local_server/app_local_server.c do to the database.
use captive_portal_esp.Base.{ℕ, ◌+◌, not, Option, none, some, List, [], ◌∷◌, length, arith, ltb}
use captive_portal_esp.Bytes.{Bytes, c_string}
use captive_portal_esp.Esp.{EspErr, esp_ok, Env, World, M, pure, ◌>>=◌}
use captive_portal_esp.Storage.{is_initialized}
use captive_portal_esp.Rfid.Card.{Card}
use captive_portal_esp.Rfid.Represents.{Represents}
use captive_portal_esp.Rfid.Closes.{
  Closes, Closed, Closes-option, Closes-if, Closes-pure, Closes-then,
}
use captive_portal_esp.Rfid.Balance.{
  add_card-Closes, remove_card-Closes, check_card-Closes, get_card_count-Closes,
  get_card_list_json-Closes, is_database_valid-Closes, reset_to_defaults-Closes,
}
use captive_portal_esp.Server.Http.{Fields, Response, url_buffer_size}
use captive_portal_esp.Server.Handlers.{
  add_parsed, add_card_handler, remove_id, remove_card_handler, check_card_handler,
  get_card_count_handler, list_cards_handler, reset_cards_handler, removed_response,
}

-- A request on the cards, with what the library finds in it.
pub data CardRequest : Type 0 where
  add_request : Option Bytes → CardRequest
  remove_request : (Bytes → Option Bytes) → Bytes → CardRequest
  check_request : Option Bytes → CardRequest
  count_request list_request reset_request : CardRequest

abbrev pub before_answers : {A : Type 0} → A → Option (List A) → Option (List A)
before_answers a none = none
before_answers a (some as_) = some (a ∷ as_)

-- The answers to further requests behind an answer that is there.
abbrev pub then_answers : {A : Type 0} → Option A → M (Option (List A)) → M (Option (List A))
then_answers answer rest = elim answer [
  | none ↦ pure none
  | some a ↦ rest >>= λ answers. pure (before_answers a answers)
]

module _ (env : Env) (parse : Bytes → Option Fields) (error_name : EspErr → Bytes)
    (send_result : EspErr) where
  -- The handler of the request; `none` where it writes behind `urlBuffer`.
  unfoldable pub answer_request : CardRequest → M (Option (EspErr × Response))
  answer_request (add_request buf) = add_card_handler env parse buf >>= λ r. pure (some r)
  answer_request (remove_request find_id query) = remove_card_handler env parse find_id query
  answer_request (check_request buf) =
      check_card_handler env parse send_result buf >>= λ r. pure (some r)
  answer_request count_request = get_card_count_handler env parse send_result >>= λ r. pure (some r)
  answer_request list_request =
      list_cards_handler env parse error_name send_result >>= λ r. pure (some r)
  answer_request reset_request = reset_cards_handler env parse error_name >>= λ r. pure (some r)

  Closes-result :
      {A B : Type 0} (m : M A) (f : A → B) → Closes 0 0 m → Closes 0 0 (m >>= λ r. pure (f r))
  Closes-result m f p = Closes-then m (λ r. pure (f r)) p (λ r. Closes-pure (f r))

  ruleset handler_rules = (Closes-pure, Closes-if, Closes-option, Closes-result, Closes-then)

  add_parsed-Closes : (fields : Fields) → Closes 0 0 (add_parsed env parse fields)
  unfolding add_parsed
  add_parsed-Closes fields = Closes-option fields.id _ _ (Closes-pure _) (λ card_id.
      Closes-option fields.nm _ _ (Closes-pure _)
        (λ name. search (handler_rules, add_card-Closes) depth 20))

  add_card_handler-Closes : (buf : Option Bytes) → Closes 0 0 (add_card_handler env parse buf)
  unfolding add_card_handler
  add_card_handler-Closes none = Closes-pure _
  add_card_handler-Closes (some buf) =
      Closes-option (parse (c_string buf)) _ _ (Closes-pure _) add_parsed-Closes

  remove_id-Closes : (card_id : ℕ) → Closes 0 0 (remove_id env parse card_id)
  remove_id-Closes card_id =
      Closes-then _ _ (remove_card-Closes env card_id)
        (λ x. Closes-pure (some (esp_ok, removed_response env parse card_id x)))

  remove_card_handler-Closes :
      (find_id : Bytes → Option Bytes) (query : Bytes)
      → Closes 0 0 (remove_card_handler env parse find_id query)
  unfolding remove_card_handler
  remove_card_handler-Closes find_id query =
      Closes-if (not (ltb 0 (length query))) _ _ (remove_id-Closes 0) (
        Closes-if (ltb url_buffer_size (length query + 1)) _ _ (Closes-pure none) (
          Closes-option (find_id query) _ _ (remove_id-Closes 0)
            (λ id_str. search (handler_rules, remove_id-Closes))))

  check_card_handler-Closes :
      (buf : Option Bytes) → Closes 0 0 (check_card_handler env parse send_result buf)
  unfolding check_card_handler
  check_card_handler-Closes none = Closes-pure _
  check_card_handler-Closes (some buf) =
      Closes-option (parse (c_string buf)) _ _ (Closes-pure _) (λ fields.
        Closes-option fields.card_id _ _ (Closes-pure _)
          (λ id_str. search (handler_rules, check_card-Closes) depth 20))

  get_card_count_handler-Closes : Closes 0 0 (get_card_count_handler env parse send_result)
  unfolding get_card_count_handler
  get_card_count_handler-Closes = search (handler_rules, get_card_count-Closes) depth 20

  list_cards_handler-Closes : Closes 0 0 (list_cards_handler env parse error_name send_result)
  unfolding list_cards_handler
  list_cards_handler-Closes =
      search (handler_rules, is_database_valid-Closes, get_card_list_json-Closes) depth 20

  is_initialized-Closes : Closes 0 0 is_initialized
  unfolding is_initialized
  is_initialized-Closes = record { closed = λ w. omega arith }

  reset_cards_handler-Closes : Closes 0 0 (reset_cards_handler env parse error_name)
  unfolding reset_cards_handler
  reset_cards_handler-Closes =
      search (handler_rules, is_initialized-Closes, reset_to_defaults-Closes) depth 20

  answer_request-Closes : (request : CardRequest) → Closes 0 0 (answer_request request)
  unfolding answer_request
  answer_request-Closes (add_request buf) = Closes-result _ some (add_card_handler-Closes buf)
  answer_request-Closes (remove_request find_id query) = remove_card_handler-Closes find_id query
  answer_request-Closes (check_request buf) = Closes-result _ some (check_card_handler-Closes buf)
  answer_request-Closes count_request = Closes-result _ some get_card_count_handler-Closes
  answer_request-Closes list_request = Closes-result _ some list_cards_handler-Closes
  answer_request-Closes reset_request = Closes-result _ some reset_cards_handler-Closes

  -- Requests one behind another; `none` where a handler writes behind `urlBuffer`, from where on nothing
  -- is known.
  unfoldable pub answer_all : List CardRequest → M (Option (List (EspErr × Response)))
  answer_all [] = pure (some [])
  answer_all (r ∷ rs) = answer_request r >>= λ answer. then_answers answer (answer_all rs)

  answer_all-Closes : (requests : List CardRequest) → Closes 0 0 (answer_all requests)
  unfolding answer_all
  answer_all-Closes [] = Closes-pure (some [])
  answer_all-Closes (r ∷ rs) = Closes-then _ _ (answer_request-Closes r) (λ answer.
      Closes-option answer _ _ (Closes-pure none)
        (λ a. Closes-then _ _ (answer_all-Closes rs) (λ as_. Closes-pure (before_answers a as_))))

  -- However the platform's calls end and whatever the requests hold, any sequence of requests on
  -- cards gives the mutex as often as it took it, and frees as many blocks as it allocated.
  pub answer_all-Closed :
      (requests : List CardRequest) (w : World) → Closed 0 0 w.usage (answer_all requests w).1.usage
  answer_all-Closed requests w = (answer_all-Closes requests).closed w
