-- ===== src/Rfid/Register/Order.antt =====
-- The check of components/rfid_manager/rfid_manager.c as a lookup in the register.
use mathlib.Core.List.{append-nil}
use captive_portal_esp.Base.{ℕ, ◌≡◌, sym, ap, ◌∙◌, List, [], length}
use captive_portal_esp.Esp.{Env, World, Reliable}
use captive_portal_esp.Storage.{content}
use captive_portal_esp.Rfid.Card.{Card, decode_database, encode_cards}
use captive_portal_esp.Rfid.Layout.{decode_database-encode_database, decode_cards-encode_cards}
use captive_portal_esp.Rfid.Represents.{Represents, header, fits_header}
use captive_portal_esp.Rfid.Store.{db_path}
use captive_portal_esp.Rfid.Manage.{check_card}
use captive_portal_esp.Rfid.Remove.{check_card-Refines}
use captive_portal_esp.Rfid.Register.{register_of, stored, register, granted}

stored_lem : {max : ℕ} (cards : List Card) (w : World) → Represents max cards w → stored w ≡ cards
unfolding stored
stored_lem {max} cards w r =
    let db = header (length cards) max r.checksum in
    let decoded : decode_database (content (w.files db_path)) ≡ db =
      ap (λ o. decode_database (content o)) r.database
      ∙ decode_database-encode_database db (fits_header r) in
    rw (decoded, r.body)
      (rw (← append-nil (encode_cards cards)) (decode_cards-encode_cards cards [] r.fits))

pub register_lem :
    {max : ℕ} (cards : List Card) (w : World)
    → Represents max cards w
    → register w ≡ register_of cards
unfolding register
register_lem cards w r = ap register_of (stored_lem cards w r)

module _ {env : Env} (rel : Reliable env) {max : ℕ} (cards : List Card) where
  -- Where no platform call fails, the answer to a check is a function of the register alone, the
  -- quotient of the list in the files that forgets order, time stamps and padding.
  pub check_card-granted :
      (card_id : ℕ) (w : World)
      → Represents max cards w
      → (check_card env card_id w).0 ≡ granted card_id (register w)
  unfolding granted
  check_card-granted card_id w r =
      (check_card-Refines rel cards card_id w r).0
      ∙ ap (granted card_id) (sym (register_lem cards w r))
