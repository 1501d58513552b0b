-- ===== src/Rfid/Register.antt =====
-- The database of components/rfid_manager/rfid_manager.c as its users see it: for each id whether a card is
-- there, whether it is active, and its name. The order of the cards, their time stamps and their padding
-- are forgotten.
pub mod Order
pub mod Undo
use mathlib.Core.Quot
use mathlib.Core.Quot.{Quot, Quot-set}
use captive_portal_esp.Base.{
  ℕ, ◌≡◌, refl, sym, ap, ◌∙◌, Option, some, none, List, ◌==◌, if◌then◌else◌,
}
use captive_portal_esp.Bytes.{Bytes}
use captive_portal_esp.Esp.{EspErr, World, esp_ok, not_found, invalid_state}
use captive_portal_esp.Storage.{content}
use captive_portal_esp.Rfid.Card.{Card, decode_database, decode_cards}
use captive_portal_esp.Rfid.Store.{db_path, cards_path}
use captive_portal_esp.Rfid.Manage.{find_card, check_found}

abbrev pub entry : Option Card → Option (ℕ × Bytes)
entry none = none
entry (some c) = some (c.active, c.name)

abbrev pub SameEntries : List Card → List Card → Type 0
SameEntries xs ys = (card_id : ℕ) → entry (find_card card_id xs) ≡ entry (find_card card_id ys)

abbrev pub Register : Type 0
Register = Quot SameEntries

abbrev pub register_of : List Card → Register
register_of = Quot.mk

-- The cards that the files hold.
unfoldable pub stored : World → List Card
stored w =
    decode_cards (decode_database (content (w.files db_path))).card_count
      (content (w.files cards_path))

unfoldable pub register : World → Register
register w = register_of (stored w)

-- The answer to a check depends on the entry alone.
abbrev pub code_of : Option (ℕ × Bytes) → EspErr
code_of none = not_found
code_of (some (active, name)) = if active == 0 then invalid_state else esp_ok

pub check_found_lem : (o : Option Card) → check_found o ≡ code_of (entry o)
unfolding check_found
check_found_lem none = refl
check_found_lem (some c) = refl

pub EspErr-set : IsSet EspErr
EspErr-set = hlevel

unfoldable pub granted : ℕ → Register → EspErr
granted card_id =
    Quot.lift EspErr-set (λ cards. check_found (find_card card_id cards))
      (λ xs ys same.
        check_found_lem (find_card card_id xs)
        ∙ ap code_of (same card_id)
        ∙ sym (check_found_lem (find_card card_id ys)))
