-- ===== src/Server/Room.antt =====
-- Requests on cards whose queries fit into the array that a handler of
-- components/app_local_server/app_local_server.c has for them are all answered.
use captive_portal_esp.Base.{
  ◌+◌, ◌<◌, ◌≡◌, refl, Option, none, some, List, [], ◌∷◌, length, arith, ltb, ◌==◌, Bool-cases,
  Option-cases, inl, inr, false, le→ltb_false,
}
use captive_portal_esp.Bytes.{Bytes}
use captive_portal_esp.Esp.{EspErr, Env, World, M}
use captive_portal_esp.Server.Http.{Fields, strtoul}
use captive_portal_esp.Server.Handlers.{remove_card_handler}
use captive_portal_esp.Server.Portal.{CardRequest, answer_request, answer_all, then_answers}

-- The query fits into `urlBuffer`, an array of 256 bytes.
abbrev pub QueryFits : CardRequest → Type 0
QueryFits (CardRequest.remove_request find_id query) = length query < 256
QueryFits _ = Unit

abbrev pub QueriesFit : List CardRequest → Type 0
QueriesFit [] = Unit
QueriesFit (r ∷ rs) = QueryFits r × QueriesFit rs

abbrev pub IsSome : {A : Type 0} → Option A → Type 0
IsSome {A} o = (a : A) × (o ≡ some a)

then_answers_fits :
    {A : Type 0} (answer : Option A) (rest : M (Option (List A))) (w : World)
    → IsSome answer
    → IsSome (rest w).0
    → IsSome (then_answers answer rest w).0
then_answers_fits none rest w (a, there) later = cc there
then_answers_fits (some x) rest w (a, there) (as_, later) = rw later (x ∷ as_, refl)

module _ (env : Env) (parse : Bytes → Option Fields) (error_name : EspErr → Bytes)
    (send_result : EspErr) where
  remove_card_handler_fits :
      (find_id : Bytes → Option Bytes) (query : Bytes) (w : World)
      → length query < 256
      → IsSome (remove_card_handler env parse find_id query w).0
  unfolding remove_card_handler
  remove_card_handler_fits find_id query w room =
      let fits : ltb 256 (length query + 1) ≡ false = le→ltb_false _ _ (omega arith) in
      elim (Bool-cases (ltb 0 (length query))) [
        | inr no_query ↦ rw no_query (_, refl)
        | inl more ↦ elim (Option-cases (find_id query)) [
          | inl absent ↦ rw (more, fits, absent) (_, refl)
          | inr (id_str, found) ↦ elim (Bool-cases (strtoul id_str == 0)) [
            | inl zero_id ↦ rw (more, fits, found, zero_id) (_, refl)
            | inr other ↦ rw (more, fits, found, other) (_, refl)
          ]
        ]
      ]

  answer_request_fits :
      (r : CardRequest) (w : World)
      → QueryFits r
      → IsSome (answer_request env parse error_name send_result r w).0
  unfolding answer_request
  answer_request_fits (CardRequest.add_request buf) w h = (_, refl)
  answer_request_fits (CardRequest.remove_request find_id query) w h =
      remove_card_handler_fits find_id query w h
  answer_request_fits (CardRequest.check_request buf) w h = (_, refl)
  answer_request_fits CardRequest.count_request w h = (_, refl)
  answer_request_fits CardRequest.list_request w h = (_, refl)
  answer_request_fits CardRequest.reset_request w h = (_, refl)

  pub answer_all_fits :
      (rs : List CardRequest) (w : World)
      → QueriesFit rs
      → IsSome (answer_all env parse error_name send_result rs w).0
  unfolding answer_all
  answer_all_fits [] w h = ([], refl)
  answer_all_fits (r ∷ rs) w h =
      then_answers_fits (answer_request env parse error_name send_result r w).0
        (answer_all env parse error_name send_result rs)
        (answer_request env parse error_name send_result r w).1 (answer_request_fits r w h.0)
        (answer_all_fits rs (answer_request env parse error_name send_result r w).1 h.1)
