-- ===== src/Tests/Portal.antt =====
-- The handlers of requests on cards at concrete inputs.
use captive_portal_esp.Base.{◌≡◌, refl, Option, some, List, [], ◌∷◌, arith}
use captive_portal_esp.Bytes.{Bytes, codes}
use captive_portal_esp.Esp.{esp_ok}
use captive_portal_esp.Rfid.Represents.{Represents}
use captive_portal_esp.Server.Http.{Fields, strtoul, digits_from}
use captive_portal_esp.Server.Sessions.{IdsFit, answer_all_keeps_admin}
use captive_portal_esp.Server.Room.{IsSome}
use captive_portal_esp.Rfid.Manage.{admin_card_id, check_card}
use captive_portal_esp.Rfid.Setup.{reset_to_defaults}
use captive_portal_esp.Server.Portal.{CardRequest, answer_all}
use captive_portal_esp.Tests.Device.{mounted, calm, calm-Reliable}

-- Every body is a card 9 of Eve, and every query has the id 7.
abbrev eve : Fields
eve = record { id = some 9; nm = some (codes "Eve"); card_id = some (codes "9") }

abbrev parses : Bytes → Option Fields
parses body = some eve

abbrev finds : Bytes → Option Bytes
finds query = some (codes "7")

abbrev requests : List CardRequest
requests =
    CardRequest.add_request (some (codes "{}"))
    ∷ CardRequest.remove_request finds (codes "id=7")
    ∷ CardRequest.check_request (some (codes "{}"))
    ∷ CardRequest.count_request
    ∷ CardRequest.list_request
    ∷ CardRequest.reset_request
    ∷ []

minus_test : strtoul (codes " -12x") ≡ 4294967284
unfolding strtoul digits_from
minus_test = refl

too_large_test : strtoul (codes "-4294967296") ≡ 4294967295
unfolding strtoul digits_from
too_large_test = refl

parses-IdsFit : IdsFit parses
parses-IdsFit body fields card_id parsed has_id = grind arith

answer_all_keeps_admin_example :
    let (answers, after) =
      answer_all calm parses
        (λ e. codes "error")
        esp_ok
        requests
        (reset_to_defaults calm mounted).1 in
    IsSome answers × ((check_card calm admin_card_id after).0 ≡ esp_ok)
answer_all_keeps_admin_example =
    answer_all_keeps_admin calm parses (λ e. codes "error") esp_ok parses-IdsFit calm-Reliable
      requests mounted (tt, (omega arith, (tt, (tt, (tt, (tt, tt))))))
