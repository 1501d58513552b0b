-- ===== src/Rfid/Spec.antt =====
-- What components/rfid_manager/rfid_manager.c promises: a shelf of cards, the steps that a call may
-- make on it, and the sequences of such steps.
use captive_portal_esp.Base.{
  ℕ, ◌*◌, ◌^◌, ◌≤◌, ◌<◌, ◌≡◌, true, ◌||◌, none, some, List, [], ◌∷◌, ◌++◌, if◌then◌else◌, ltb,
  length, drop,
}
use captive_portal_esp.Bytes.{Bytes}
use captive_portal_esp.Text.{zeros}
use captive_portal_esp.Esp.{EspErr, esp_ok, invalid_arg, no_mem, is_ok, is_invalid_state}
use captive_portal_esp.Rfid.Card.{Card, encode_cards}
use captive_portal_esp.Rfid.Manage.{new_card, find_card, check_found}
use captive_portal_esp.Rfid.Setup.{default_cards}
use captive_portal_esp.Rfid.Add.{spec_add}
use captive_portal_esp.Rfid.Remove.{spec_remove}
use captive_portal_esp.Rfid.Reset.{MadeFrom}
use captive_portal_esp.Rfid.Listing.{Listed}
use captive_portal_esp.Rfid.Requests.{Request, Reply}

pub record Shelf : Type 0 where
  pub capacity : ℕ
  pub cards : List Card

-- Adding each of the defaults, up to the first that is refused for another reason than being there.
abbrev pub AddsEach : List (ℕ × Bytes) → Shelf → EspErr → Shelf → Type 0
AddsEach [] s r s' = (r ≡ esp_ok) × (s' ≡ s)
AddsEach ((card_id, name) ∷ more) s r s' =
    (padding : Bytes) × (now : ℕ) × (let out =
        spec_add s.capacity s.cards (new_card card_id name padding now) in
      if is_ok out.0 || is_invalid_state out.0
      then AddsEach more (record s { cards = out.1 }) r s'
      else (r ≡ out.0) × (s' ≡ record s { cards = out.1 }))

-- `Step request s reply s'`: the call may answer `reply` and leave `s'`.
abbrev pub Step : Request → Shelf → Reply → Shelf → Type 0
Step (Request.add card_id none) s r s' = (r ≡ Reply.code invalid_arg) × (s' ≡ s)
Step (Request.add card_id (some name)) s r s' =
    (padding : Bytes) × (now : ℕ) × (let out =
        spec_add s.capacity s.cards (new_card card_id name padding now) in
      (r ≡ Reply.code out.0) × (s' ≡ record s { cards = out.1 }))
Step (Request.remove card_id) s r s' =
    let out = spec_remove s.cards card_id in
    (r ≡ Reply.code out.0) × (s' ≡ record s { cards = out.1 })
Step (Request.check card_id) s r s' =
    (r ≡ Reply.code (check_found (find_card card_id s.cards))) × (s' ≡ s)
Step Request.count s r s' = (r ≡ Reply.number (length s.cards)) × (s' ≡ s)
Step Request.save s r s' = (r ≡ Reply.code esp_ok) × (s' ≡ s)
Step Request.load s r s' = (r ≡ Reply.code esp_ok) × (s' ≡ s)
Step Request.valid s r s' = (r ≡ Reply.answer true) × (s' ≡ s)
Step Request.format s r s' = (r ≡ Reply.code esp_ok) × (s' ≡ record { capacity = 200; cards = [] })
Step Request.defaults s r s' = (e : EspErr) × (r ≡ Reply.code e) × AddsEach default_cards s e s'
Step Request.reset s r s' =
    (r ≡ Reply.code esp_ok) × (s'.capacity ≡ 200) × MadeFrom default_cards s'.cards
Step (Request.list max_cards) s r s' =
    (if ltb max_cards (length s.cards)
      then (r ≡ Reply.filled no_mem (zeros (max_cards * 44)))
      else (r
          ≡ Reply.filled esp_ok
              (encode_cards s.cards ++ drop (length s.cards * 44) (zeros (max_cards * 44)))))
    × (s' ≡ s)
Step (Request.list_json size) s r s' =
    (result : EspErr) × (buffer : Bytes) × (r ≡ Reply.filled result buffer)
    × Listed size s.cards (result, buffer)
    × (s' ≡ s)

-- Steps one behind another, from `s` to `s'`.
abbrev pub Trace : List Request → Shelf → List Reply → Shelf → Type 0
Trace [] s [] s' = s' ≡ s
Trace (request ∷ requests) s (reply ∷ replies) s' =
    (between : Shelf) × Step request s reply between × Trace requests between replies s'
Trace _ _ _ _ = ⊥

-- The arguments are in the range of their C types, and the buffer for the JSON text is neither tiny
-- nor huge.
abbrev pub InRange : Request → Type 0
InRange (Request.add card_id name) = card_id < 2 ^ 32
InRange (Request.list_json size) = (64 ≤ size) × (size < 2 ^ 16)
InRange _ = Unit

abbrev pub AllInRange : List Request → Type 0
AllInRange [] = Unit
AllInRange (request ∷ requests) = InRange request × AllInRange requests
