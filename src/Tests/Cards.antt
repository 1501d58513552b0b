-- ===== src/Tests/Cards.antt =====
-- Runs of the card database.
use captive_portal_esp.Base.{ℕ, ◌≡◌, some, List, [], ◌∷◌, arith}
use captive_portal_esp.Bytes.{codes}
use captive_portal_esp.Esp.{esp_ok}
use captive_portal_esp.Rfid.Card.{Card}
use captive_portal_esp.Rfid.Manage.{admin_card_id, check_card}
use captive_portal_esp.Rfid.Setup.{reset_to_defaults}
use captive_portal_esp.Rfid.Represents.{Represents, Refines}
use captive_portal_esp.Rfid.Reset.{IsDefault, reset_to_defaults_restores}
use captive_portal_esp.Rfid.Closes.{Closed}
use captive_portal_esp.Rfid.Requests.{Request, serve_all}
use captive_portal_esp.Rfid.Spec.{Shelf, Trace, AllInRange}
use captive_portal_esp.Rfid.Traces.{Holding, serve_all-Trace}
use captive_portal_esp.Rfid.Sessions.{serve_all-Closed}
use captive_portal_esp.Rfid.Invariants.{UniqueIds}
use captive_portal_esp.Rfid.Admin.{ids_unique_after_reset, admin_accepted_after_reset}
use captive_portal_esp.Tests.Device.{
  calm, calm-Reliable, holding, two_cards, two_cards-Represents, two_cards-Terminated, mounted,
}

-- Adding Eve, removing Bob, checking both, and listing.
abbrev session : List Request
session =
    Request.add 9 (some (codes "Eve"))
    ∷ Request.remove 7
    ∷ Request.check 7
    ∷ Request.remove admin_card_id
    ∷ Request.save
    ∷ Request.list_json 256
    ∷ []

session-AllInRange : AllInRange session
session-AllInRange = (omega arith, (tt, (tt, (tt, (tt, ((omega arith, omega arith), tt))))))

serve_all-Trace_example :
    (s' : Shelf) × Trace session
      (record { capacity = 200; cards = two_cards })
      (serve_all calm session (holding two_cards 2)).0
      s'
    × Holding s' (serve_all calm session (holding two_cards 2)).1
serve_all-Trace_example =
    serve_all-Trace calm-Reliable session (record { capacity = 200; cards = two_cards })
      (holding two_cards 2) session-AllInRange (two_cards-Represents, two_cards-Terminated)

admin_accepted_after_reset_example :
    (check_card calm admin_card_id (serve_all calm session (reset_to_defaults calm mounted).1).1).0
    ≡ esp_ok
admin_accepted_after_reset_example =
    admin_accepted_after_reset calm-Reliable session mounted session-AllInRange
      (tt, (tt, (tt, (tt, (tt, (tt, tt))))))

ids_unique_after_reset_example :
    (capacity : ℕ) × (cards : List Card) × Represents capacity cards
      (serve_all calm session (reset_to_defaults calm mounted).1).1
    × UniqueIds cards
ids_unique_after_reset_example =
    ids_unique_after_reset calm-Reliable session mounted session-AllInRange

serve_all-Closed_example : Closed 0 0 mounted.usage (serve_all calm session mounted).1.usage
serve_all-Closed_example = serve_all-Closed calm session mounted

reset_to_defaults_restores_example :
    (a : Card) × (b : Card) × (c : Card) × IsDefault 0x12345678 (codes "Admin Card") a
    × IsDefault 0x87654321 (codes "User Card 1") b
    × IsDefault 0xABCDEF00 (codes "User Card 2") c
    × Refines 200 (reset_to_defaults calm (holding two_cards 2)) (esp_ok, a ∷ b ∷ c ∷ [])
reset_to_defaults_restores_example = reset_to_defaults_restores calm-Reliable (holding two_cards 2)
