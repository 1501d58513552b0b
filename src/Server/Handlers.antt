-- ===== src/Server/Handlers.antt =====
-- The handlers of requests on cards of components/app_local_server/app_local_server.c. What the HTTP server
-- and cJSON find in the request are arguments.
use captive_portal_esp.Base.{
  ℕ, ◌+◌, Bool, not, Option, none, some, ◌++◌, ltb, ◌==◌, if◌then◌else◌, length,
}
use captive_portal_esp.Bytes.{Bytes, c_string, codes}
use captive_portal_esp.Text.{snprintf, decimal, zeros}
use captive_portal_esp.Esp.{
  EspErr, esp_ok, esp_fail, no_mem, not_found, not_supported, is_ok, Env, M, pure, ◌>>=◌,
}
use captive_portal_esp.Storage.{is_initialized}
use captive_portal_esp.Rfid.Manage.{add_card, remove_card, check_card}
use captive_portal_esp.Rfid.Query.{get_card_count, is_database_valid}
use captive_portal_esp.Rfid.Json.{get_card_list_json}
use captive_portal_esp.Rfid.Setup.{reset_to_defaults}
use captive_portal_esp.Server.Http.{
  Response, respond_with, send_500, buffer_size, url_buffer_size, strtoul, signed_decimal, Fields,
  ok_200, created_201, bad_request_400, forbidden_403, not_found_404, server_error_500,
}

module _ (env : Env) (parse : Bytes → Option Fields) where
  abbrev pub added_response : EspErr → Response
  added_response result =
      if is_ok result
      then respond_with created_201
          (codes "{\"status\":\"success\",\"message\":\"Card added successfully\"}")
      else send_500

  -- "Extract the card ID" and what follows
  unfoldable pub add_parsed : Fields → M (EspErr × Response)
  add_parsed fields = elim (fields.id) [
    | none ↦ pure (
      esp_fail,
      respond_with bad_request_400
          (codes "{\"status\":\"error\",\"message\":\"Invalid or missing card_id\"}"),
    )
    | some card_id ↦ elim (fields.nm) [
      | none ↦ pure (
        esp_fail,
        respond_with bad_request_400
            (codes "{\"status\":\"error\",\"message\":\"Invalid or missing card_id\"}"),
      )
      | some name ↦
          if card_id == 0
          then pure (
            esp_fail,
            respond_with bad_request_400
                (codes "{\"status\":\"error\",\"message\":\"Invalid card_id\"}"),
          )
          else (do result ← add_card env card_id (some name); pure (esp_ok, added_response result))
    ]
  ]

  -- `none` is a body that could not be received.
  unfoldable pub add_card_handler : Option Bytes → M (EspErr × Response)
  add_card_handler none = pure (esp_fail, send_500)
  add_card_handler (some buf) = elim (parse (c_string buf)) [
    | none ↦ pure (esp_fail, send_500)
    | some fields ↦ add_parsed fields
  ]

  abbrev pub removed_response : ℕ → EspErr → Response
  removed_response card_id esp_ok =
      respond_with ok_200 (codes "{\"status\":\"success\", \"message\":\"Card removed\"}")
  removed_response card_id not_found =
      respond_with not_found_404
        (codes "Card ID " ++ (signed_decimal card_id ++ codes " not found"))
  removed_response card_id not_supported = respond_with forbidden_403 (
      codes
        "{\"status\":\"error\", \"message\":\"Cannot remove admin card - this card is protected\"}")
  removed_response card_id _ = send_500

  abbrev pub remove_id : ℕ → M (Option (EspErr × Response))
  remove_id card_id = do
    ret ← remove_card env card_id
    pure (some (esp_ok, removed_response card_id ret))

  -- `find_id` is `httpd_query_key_value` for "id". `none` is a write behind `urlBuffer`: the handler says
  -- that it has as much room as the query needs.
  unfoldable pub remove_card_handler :
      (Bytes → Option Bytes) → Bytes → M (Option (EspErr × Response))
  remove_card_handler find_id query =
      if not (ltb 0 (length query))
      then remove_id 0
      else if ltb url_buffer_size (length query + 1)
      then pure none
      else elim (find_id query) [
        | none ↦ remove_id 0
        | some id_str ↦
            if strtoul id_str == 0
            then pure
                (some (esp_fail, respond_with bad_request_400 (codes "Card ID missing in URI")))
            else remove_id (strtoul id_str)
      ]

  -- `send_result` is what `httpd_resp_send` returns.
  unfoldable pub get_card_count_handler : EspErr → M (EspErr × Response)
  get_card_count_handler send_result = do
    card_count ← get_card_count env
    pure (
      send_result,
      respond_with ok_200 (codes "{\"card_count\":" ++ (decimal card_count ++ codes "}")),
    )

  abbrev pub exists_text : Bool → Bytes
  exists_text found =
      codes "{\"exists\":" ++ ((if found then codes "true" else codes "false") ++ codes "}")

  unfoldable pub check_card_handler : EspErr → Option Bytes → M (EspErr × Response)
  check_card_handler send_result none = pure (esp_fail, send_500)
  check_card_handler send_result (some buf) = elim (parse (c_string buf)) [
    | none ↦ pure (esp_fail, send_500)
    | some fields ↦ elim (fields.card_id) [
      | none ↦ pure (
        esp_fail,
        respond_with bad_request_400
            (codes "{\"status\":\"error\",\"message\":\"Invalid or missing card_id\"}"),
      )
      | some id_str ↦ do
        check_result ← check_card env (strtoul id_str)
        pure (send_result, respond_with ok_200 (exists_text (is_ok check_result)))
    ]
  ]

  -- `error_name` is `esp_err_to_name`.
  abbrev pub listed_text : (EspErr → Bytes) → EspErr → Bytes → Bytes
  listed_text error_name esp_ok buffer = c_string buffer
  listed_text error_name no_mem buffer =
      codes
        "{\"status\":\"error\",\"message\":\"Buffer too small for RFID card list\",\"cards\":[]}"
  listed_text error_name result buffer =
      c_string
        (snprintf (zeros 100) 0 100 (
          codes "{\"status\":\"error\",\"message\":\"Failed to get RFID card list: "
          ++ (error_name result ++ codes "\",\"cards\":[]}"))).0

  abbrev pub not_valid_text : Bytes
  not_valid_text =
      codes "{\"status\":\"error\",\"message\":\"RFID database is not valid\",\"cards\":[]}"

  unfoldable pub list_cards_handler : (EspErr → Bytes) → EspErr → M (EspErr × Response)
  list_cards_handler error_name send_result = do
    is_valid ← is_database_valid env
    if not is_valid then pure (esp_ok, respond_with ok_200 not_valid_text) else (do
      (result, buffer) ← get_card_list_json env (some (zeros buffer_size)) buffer_size
      pure (send_result, respond_with ok_200 (listed_text error_name result buffer)))

  abbrev pub reset_failed_text : (EspErr → Bytes) → EspErr → Bytes
  reset_failed_text error_name no_mem =
      codes "{\"status\":\"error\",\"message\":\"Insufficient memory to reset database\"}"
  reset_failed_text error_name esp_fail =
      codes "{\"status\":\"error\",\"message\":\"Storage operation failed\"}"
  reset_failed_text error_name not_found =
      codes "{\"status\":\"error\",\"message\":\"Database files not found\"}"
  reset_failed_text error_name result =
      c_string
        (snprintf (zeros 256) 0 256 (
          codes "{\"status\":\"error\",\"message\":\"Reset failed: "
          ++ (error_name result ++ codes "\"}"))).0

  unfoldable pub reset_cards_handler : (EspErr → Bytes) → M (EspErr × Response)
  reset_cards_handler error_name = do
    initialized ← is_initialized
    if not initialized
        then pure (
          esp_ok,
          respond_with server_error_500
              (codes "{\"status\":\"error\",\"message\":\"Storage system not initialized\"}"),
        )
        else (do
          result ← reset_to_defaults env
          pure (
            esp_ok,
            (if is_ok result
                then respond_with ok_200 (
                    codes
                      "{\"status\":\"success\",\"message\":\"RFID card database reset to defaults successfully\"}")
                else respond_with server_error_500 (reset_failed_text error_name result)),
          ))
