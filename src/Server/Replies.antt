-- ===== src/Server/Replies.antt =====
-- What the handlers of requests on cards of components/app_local_server/app_local_server.c are to answer.
use captive_portal_esp.Base.{ℕ, ◌≡◌, refl, Option, some, [], ◌++◌}
use captive_portal_esp.Bytes.{Bytes, codes}
use captive_portal_esp.Esp.{EspErr, esp_ok, not_found, not_supported, Env}
use captive_portal_esp.Server.Http.{
  Fields, Response, respond_with, ok_200, created_201, forbidden_403, not_found_404,
  server_error_500, signed_decimal,
}
use captive_portal_esp.Server.Handlers.{added_response, removed_response}

-- What the handler is to return and send when a card is added with this result.
abbrev pub Added : EspErr → EspErr × Response → Type 0
Added esp_ok reply = reply ≡ (
  esp_ok,
  respond_with created_201
      (codes "{\"status\":\"success\",\"message\":\"Card added successfully\"}"),
)
Added _ reply = reply ≡ (esp_ok, respond_with server_error_500 [])

-- What the handler is to return and send when the card with the id is removed with this result.
abbrev pub Removed : ℕ → EspErr → Option (EspErr × Response) → Type 0
Removed card_id esp_ok reply =
    reply
    ≡ some (
      esp_ok,
      respond_with ok_200 (codes "{\"status\":\"success\", \"message\":\"Card removed\"}"),
    )
Removed card_id not_found reply =
    reply
    ≡ some (
      esp_ok,
      respond_with not_found_404
          (codes "Card ID " ++ (signed_decimal card_id ++ codes " not found")),
    )
Removed card_id not_supported reply =
    reply
    ≡ some (
      esp_ok,
      respond_with forbidden_403 (
          codes
            "{\"status\":\"error\", \"message\":\"Cannot remove admin card - this card is protected\"}"),
    )
Removed card_id _ reply = reply ≡ some (esp_ok, respond_with server_error_500 [])

module _ (env : Env) (parse : Bytes → Option Fields) where
  pub added_response-Added :
      (result : EspErr) → Added result (esp_ok, added_response env parse result)
  added_response-Added EspErr.esp_ok = refl
  added_response-Added EspErr.esp_fail = refl
  added_response-Added EspErr.no_mem = refl
  added_response-Added EspErr.invalid_arg = refl
  added_response-Added EspErr.invalid_state = refl
  added_response-Added EspErr.not_found = refl
  added_response-Added EspErr.not_supported = refl
  added_response-Added EspErr.timeout = refl
  added_response-Added (EspErr.other n) = refl

  pub removed_response-Removed :
      (card_id : ℕ) (result : EspErr)
      → Removed card_id result (some (esp_ok, removed_response env parse card_id result))
  removed_response-Removed card_id EspErr.esp_ok = refl
  removed_response-Removed card_id EspErr.esp_fail = refl
  removed_response-Removed card_id EspErr.no_mem = refl
  removed_response-Removed card_id EspErr.invalid_arg = refl
  removed_response-Removed card_id EspErr.invalid_state = refl
  removed_response-Removed card_id EspErr.not_found = refl
  removed_response-Removed card_id EspErr.not_supported = refl
  removed_response-Removed card_id EspErr.timeout = refl
  removed_response-Removed card_id (EspErr.other n) = refl
