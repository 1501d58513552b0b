-- ===== src/Server/Sessions.antt =====
-- Whatever is requested of the handlers of components/app_local_server/app_local_server.c, the card database sees a
-- sequence of calls of components/rfid_manager/rfid_manager.c, none of which formats it.
use captive_portal_esp.Base.{
  ℕ, ◌+◌, ◌<◌, ◌^◌, ◌≡◌, refl, ap, ◌∙◌, not, Option, none, some, List, [], ◌∷◌, length, arith, ltb,
  ◌==◌,
}
use captive_portal_esp.Bytes.{Bytes, c_string}
use captive_portal_esp.Esp.{EspErr, esp_ok, Env, World, Reliable}
use captive_portal_esp.Storage.{is_initialized}
use captive_portal_esp.Rfid.Manage.{add_card, remove_card, check_card, admin_card_id}
use captive_portal_esp.Rfid.Requests.{Request, serve, serve_all}
use captive_portal_esp.Text.{zeros}
use captive_portal_esp.Rfid.Query.{get_card_count, is_database_valid}
use captive_portal_esp.Rfid.Json.{get_card_list_json}
use captive_portal_esp.Rfid.Setup.{reset_to_defaults}
use captive_portal_esp.Rfid.Admin.{admin_accepted_after_reset}
use captive_portal_esp.Server.Http.{
  respond_with, ok_200, Fields, buffer_size, strtoul, url_buffer_size,
}
use captive_portal_esp.Server.Handlers.{
  added_response, listed_text, not_valid_text, add_parsed, add_card_handler, remove_id,
  remove_card_handler, check_card_handler, get_card_count_handler, list_cards_handler,
  reset_cards_handler,
}
use captive_portal_esp.Rfid.Calls.{
  Calls, Calls-pure, Calls-if, Calls-option, Calls-then, Calls-one, Calls-result,
}
use captive_portal_esp.Server.Room.{IsSome, QueriesFit, answer_all_fits}
use captive_portal_esp.Server.Portal.{CardRequest, answer_request, answer_all, before_answers}

-- The ids that cJSON finds are in the range of a `uint32_t`.
abbrev pub IdsFit : (Bytes → Option Fields) → Type 0
IdsFit parse =
    (body : Bytes) (fields : Fields) (card_id : ℕ)
    → parse body ≡ some fields
    → fields.id ≡ some card_id
    → card_id < 2 ^ 32

module _ (env : Env) (parse : Bytes → Option Fields) (error_name : EspErr → Bytes)
    (send_result : EspErr) (fit : IdsFit parse) where
  ruleset calls_rules = (Calls-pure, Calls-if, Calls-result, Calls-then)

  add_parsed-Calls :
      (body : Bytes) (fields : Fields)
      → parse body ≡ some fields
      → Calls env (add_parsed env parse fields)
  unfolding add_parsed serve
  add_parsed-Calls body fields parsed =
      Calls-option env fields.id _ _ (Calls-pure env _) (λ card_id has_id.
        Calls-option env fields.nm _ _ (Calls-pure env _) (λ name has_name.
          let added =
            Calls-one env (add_card env card_id (some name)) (Request.add card_id (some name))
              (fit body fields card_id parsed has_id) tt (λ w. refl) in
          Calls-if env (card_id == 0) _ _ (Calls-pure env _)
            (Calls-result env _ (λ r. (esp_ok, added_response env parse r)) added)))

  add_card_handler-Calls : (buf : Option Bytes) → Calls env (add_card_handler env parse buf)
  unfolding add_card_handler
  add_card_handler-Calls none = Calls-pure env _
  add_card_handler-Calls (some buf) =
      Calls-option env (parse (c_string buf)) _ _ (Calls-pure env _)
        (add_parsed-Calls (c_string buf))

  remove_id-Calls : (card_id : ℕ) → Calls env (remove_id env parse card_id)
  unfolding serve
  remove_id-Calls card_id =
      let removed =
        Calls-one env (remove_card env card_id) (Request.remove card_id) tt tt (λ w. refl) in
      search (calls_rules, removed) depth 20

  remove_card_handler-Calls :
      (find_id : Bytes → Option Bytes) (query : Bytes)
      → Calls env (remove_card_handler env parse find_id query)
  unfolding remove_card_handler
  remove_card_handler-Calls find_id query =
      Calls-if env (not (ltb 0 (length query))) _ _ (remove_id-Calls 0) (
        Calls-if env (ltb url_buffer_size (length query + 1)) _ _ (Calls-pure env none) (
          Calls-option env (find_id query) _ _ (remove_id-Calls 0) (λ id_str found.
            Calls-if env (strtoul id_str == 0) _ _ (Calls-pure env _)
              (remove_id-Calls (strtoul id_str)))))

  check_card_handler-Calls :
      (buf : Option Bytes) → Calls env (check_card_handler env parse send_result buf)
  unfolding check_card_handler serve
  check_card_handler-Calls none = Calls-pure env _
  check_card_handler-Calls (some buf) =
      Calls-option env (parse (c_string buf)) _ _ (Calls-pure env _) (λ fields parsed.
        Calls-option env fields.card_id _ _ (Calls-pure env _) (λ id_str has_id.
          let checked =
            Calls-one env (check_card env (strtoul id_str)) (Request.check (strtoul id_str)) tt tt
              (λ w. refl) in
          search (calls_rules, checked) depth 20))

  get_card_count_handler-Calls : Calls env (get_card_count_handler env parse send_result)
  unfolding get_card_count_handler serve
  get_card_count_handler-Calls =
      let counted = Calls-one env (get_card_count env) Request.count tt tt (λ w. refl) in
      search (calls_rules, counted) depth 20

  listed-Calls : Calls env (get_card_list_json env (some (zeros buffer_size)) buffer_size)
  unfolding serve
  listed-Calls =
      Calls-one env _ (Request.list_json buffer_size) (omega arith, omega arith) tt (λ w. refl)

  list_cards_handler-Calls : Calls env (list_cards_handler env parse error_name send_result)
  unfolding list_cards_handler serve
  list_cards_handler-Calls =
      let tested = Calls-one env (is_database_valid env) Request.valid tt tt (λ w. refl) in
      Calls-then env _ _ tested (λ valid.
        Calls-if env (not valid) _ _
          (Calls-pure env (esp_ok, respond_with ok_200 (not_valid_text env parse)))
          (Calls-result env _
            (λ x. (send_result, respond_with ok_200 (listed_text env parse error_name x.0 x.1)))
            listed-Calls))

  is_initialized-Calls : Calls env is_initialized
  unfolding is_initialized serve_all
  is_initialized-Calls = record { calls = λ w. ([], tt, tt, refl) }

  reset-Calls : Calls env (reset_to_defaults env)
  unfolding serve
  reset-Calls = Calls-one env _ Request.reset tt tt (λ w. refl)

  reset_cards_handler-Calls : Calls env (reset_cards_handler env parse error_name)
  unfolding reset_cards_handler
  reset_cards_handler-Calls = search (calls_rules, is_initialized-Calls, reset-Calls) depth 20

  answer_request-Calls :
      (r : CardRequest) → Calls env (answer_request env parse error_name send_result r)
  unfolding answer_request
  answer_request-Calls (CardRequest.add_request buf) =
      Calls-result env _ some (add_card_handler-Calls buf)
  answer_request-Calls (CardRequest.remove_request find_id query) =
      remove_card_handler-Calls find_id query
  answer_request-Calls (CardRequest.check_request buf) =
      Calls-result env _ some (check_card_handler-Calls buf)
  answer_request-Calls CardRequest.count_request =
      Calls-result env _ some get_card_count_handler-Calls
  answer_request-Calls CardRequest.list_request = Calls-result env _ some list_cards_handler-Calls
  answer_request-Calls CardRequest.reset_request = Calls-result env _ some reset_cards_handler-Calls

  answer_all-Calls :
      (rs : List CardRequest) → Calls env (answer_all env parse error_name send_result rs)
  unfolding answer_all
  answer_all-Calls [] = Calls-pure env (some [])
  answer_all-Calls (r ∷ rs) = Calls-then env _ _ (answer_request-Calls r) (λ answer.
      Calls-option env answer _ _ (Calls-pure env none) (λ a there.
        Calls-then env _ _ (answer_all-Calls rs) (λ as_. Calls-pure env (before_answers a as_))))

  -- Where no platform call fails, the ids that cJSON finds are in the range of a uint32_t, and no
  -- removal has a query of more than 255 bytes, for which its array has no room: after a reset of
  -- any files and any sequence of HTTP requests on cards, whatever else they hold, no handler has
  -- written behind that array, and the admin card is still accepted.
  pub answer_all_keeps_admin :
      (rel : Reliable env) (rs : List CardRequest) (w : World)
      → QueriesFit rs
      → (let (answers, after) =
            answer_all env parse error_name send_result rs (reset_to_defaults env w).1 in
          IsSome answers × ((check_card env admin_card_id after).0 ≡ esp_ok))
  answer_all_keeps_admin rel rs w fits =
      let (requests, in_range, plain, same) =
        (answer_all-Calls rs).calls (reset_to_defaults env w).1 in
      (
        answer_all_fits env parse error_name send_result rs (reset_to_defaults env w).1 fits,
        ap (λ v. (check_card env admin_card_id v).0) same
            ∙ admin_accepted_after_reset rel requests w in_range plain,
      )
