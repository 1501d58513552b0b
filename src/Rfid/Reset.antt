-- ===== src/Rfid/Reset.antt =====
-- `rfid_manager_reset_to_defaults`: from any files, exactly the default cards.
use mathlib.Core.List.{append-nil, append_assoc}
use captive_portal_esp.Base.{
  ℕ, ◌+◌, ◌-◌, ap, ◌≤◌, ◌≡◌, ◌≢◌, refl, ◌∙◌, ◌==◌, false, some, List, [], ◌∷◌, ◌++◌, length,
  length-append, lt→ltb, Bool-cases, inl, inr, arith,
}
use captive_portal_esp.Bytes.{Bytes, codes}
use captive_portal_esp.Text.{zeros}
use captive_portal_esp.Esp.{Env, World, Reliable, EspErr, esp_ok}
use captive_portal_esp.Storage.{file_exists}
use captive_portal_esp.Rfid.Card.{Card}
use captive_portal_esp.Rfid.Represents.{Represents, Refines}
use captive_portal_esp.Rfid.Manage.{add_card, new_card, name_field, find_card, is_found}
use captive_portal_esp.Rfid.Add.{add_card-Adds}
use captive_portal_esp.Rfid.Defaults.{IdsInRange, format_database-Refines}
use captive_portal_esp.Rfid.Setup.{
  default_cards, ensure_database, add_each, load_defaults, format_database, reset_to_defaults,
}

-- The cards are new cards with these ids and names, in this order.
abbrev pub MadeFrom : List (ℕ × Bytes) → List Card → Type 0
MadeFrom [] [] = Unit
MadeFrom ((card_id, name) ∷ defaults) (c ∷ cs) =
    ((padding : Bytes) × (now : ℕ) × (c ≡ new_card card_id name padding now)) × MadeFrom defaults cs
MadeFrom _ _ = ⊥

abbrev pub Absent : List Card → ℕ → Type 0
Absent cards card_id = is_found (find_card card_id cards) ≡ false

abbrev AbsentAll : List Card → List (ℕ × Bytes) → Type 0
AbsentAll cards [] = Unit
AbsentAll cards ((card_id, name) ∷ defaults) = Absent cards card_id × AbsentAll cards defaults

abbrev NotIn : ℕ → List (ℕ × Bytes) → Type 0
NotIn card_id [] = Unit
NotIn card_id ((other, name) ∷ defaults) = (card_id ≢ other) × NotIn card_id defaults

abbrev Distinct : List (ℕ × Bytes) → Type 0
Distinct [] = Unit
Distinct ((card_id, name) ∷ defaults) = NotIn card_id defaults × Distinct defaults

pub Absent-last :
    (card_id : ℕ) (cs : List Card) (c : Card)
    → Absent cs card_id
    → c.card_id ≢ card_id
    → Absent (cs ++ c ∷ []) card_id
unfolding find_card
Absent-last card_id [] c h ne = ground arith
Absent-last card_id (x ∷ cs) c h ne = elim (Bool-cases (x.card_id == card_id)) [
  | inl here ↦ cc (rw here at h)
  | inr further ↦ rw further (Absent-last card_id cs c (rw further at h) ne)
]

AbsentAll-last :
    (defaults : List (ℕ × Bytes)) (cs : List Card) (c : Card)
    → AbsentAll cs defaults
    → NotIn c.card_id defaults
    → AbsentAll (cs ++ c ∷ []) defaults
AbsentAll-last [] cs c h ne = tt
AbsentAll-last ((card_id, name) ∷ defaults) cs c h ne =
    (Absent-last card_id cs c h.0 ne.0, AbsentAll-last defaults cs c h.1 ne.1)

record Made (max : ℕ) (cards : List Card) (defaults : List (ℕ × Bytes)) (out : EspErr × World)
    : Type 0 where
  extra : List Card
  made : MadeFrom defaults extra
  result : out.0 ≡ esp_ok
  files : Represents max (cards ++ extra) out.1

-- An active card with this id, its name in an array of 32 bytes with zeros behind it.
abbrev pub IsDefault : ℕ → Bytes → Card → Type 0
IsDefault card_id name c =
    (c.card_id ≡ card_id) × (c.active ≡ 1) × (c.name ≡ name ++ zeros (32 - length name))

three_defaults :
    {max : ℕ} {out : EspErr × World} (cards : List Card)
    → MadeFrom default_cards cards
    → Refines max out (esp_ok, cards)
    → (a : Card) × (b : Card) × (c : Card) × IsDefault 0x12345678 (codes "Admin Card") a
      × IsDefault 0x87654321 (codes "User Card 1") b
      × IsDefault 0xABCDEF00 (codes "User Card 2") c
      × Refines max out (esp_ok, a ∷ b ∷ c ∷ [])
unfolding name_field
three_defaults [] made left = absurd made
three_defaults (a ∷ []) made left = absurd made.1
three_defaults (a ∷ b ∷ []) made left = absurd made.1.1
three_defaults (a ∷ b ∷ c ∷ d ∷ cs) made left = absurd made.1.1.1
three_defaults (a ∷ b ∷ c ∷ []) ((_, _, ea), ((_, _, eb), ((_, _, ec), _))) left = (
  a,
  b,
  c,
  (ap (λ x. x.card_id) ea, ap (λ x. x.active) ea, ap (λ x. x.name) ea),
  (ap (λ x. x.card_id) eb, ap (λ x. x.active) eb, ap (λ x. x.name) eb),
  (ap (λ x. x.card_id) ec, ap (λ x. x.active) ec, ap (λ x. x.name) ec),
  left,
)

module _ {env : Env} (rel : Reliable env) where
  module _ {max : ℕ} where
    add_each-Made :
        (defaults : List (ℕ × Bytes)) (cards : List Card) (w : World)
        → IdsInRange defaults
        → Distinct defaults
        → AbsentAll cards defaults
        → length cards + length defaults ≤ max
        → Represents max cards w
        → Made max cards defaults (add_each env defaults w)
    unfolding add_each
    add_each-Made [] cards w ids apart absent room r = record {
      extra = [];
      made = tt;
      result = refl;
      files = rw append-nil r;
    }
    add_each-Made ((card_id, name) ∷ defaults) cards w ids apart absent room r =
        let (padding, now, done) = add_card-Adds rel cards card_id name ids.0 w r in
        let card = new_card card_id name padding now in
        let w' = (add_card env card_id (some name) w).1 in
        let fits = lt→ltb (length cards) max (omega arith) in
        let added : (add_card env card_id (some name) w).0 ≡ esp_ok =
          done.0 ∙ rw (absent.0, fits) in
        let m =
          add_each-Made defaults (cards ++ card ∷ []) w' ids.1 apart.1
            (AbsentAll-last defaults cards card absent.1 apart.0)
            (omega (arith, length-append cards (card ∷ []))) (rw (absent.0, fits) at done.1) in
        record {
          extra = card ∷ m.extra;
          made = ((padding, now, refl), m.made);
          result = rw added m.result;
          files = rw added (rw (append_assoc cards (card ∷ []) m.extra) at m.files);
        }

  pub reset_to_defaults-MadeFrom :
      (w : World)
      → (cards : List Card) × MadeFrom default_cards cards
        × Refines 200 (reset_to_defaults env w) (esp_ok, cards)
  unfolding reset_to_defaults load_defaults ensure_database file_exists find_card
  reset_to_defaults-MadeFrom w =
      let (formatted, r) = format_database-Refines rel w in
      let w' = (format_database env w).1 in
      let m =
        add_each-Made default_cards [] w' (omega arith) (omega arith) (refl, (refl, (refl, tt)))
          (omega arith) r in
      (m.extra, m.made, rw (formatted, r.database) (rw m.result (refl, m.files)))

  -- Where no platform call fails, a reset succeeds from any files, and leaves exactly three cards,
  -- in this order, all active: 0x12345678, Admin Card; 0x87654321, User Card 1; 0xABCDEF00, User
  -- Card 2; the names with zeros behind them in arrays of 32 bytes.
  pub reset_to_defaults_restores :
      (w : World)
      → (a : Card) × (b : Card) × (c : Card) × IsDefault 0x12345678 (codes "Admin Card") a
        × IsDefault 0x87654321 (codes "User Card 1") b
        × IsDefault 0xABCDEF00 (codes "User Card 2") c
        × Refines 200 (reset_to_defaults env w) (esp_ok, a ∷ b ∷ c ∷ [])
  reset_to_defaults_restores w =
      let (cards, made, left) = reset_to_defaults-MadeFrom w in three_defaults cards made left
