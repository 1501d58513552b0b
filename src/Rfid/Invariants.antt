-- ===== src/Rfid/Invariants.antt =====
-- What no sequence of calls of components/rfid_manager/rfid_manager.c can undo: ids stay unique, and
-- the admin card stays accepted unless the database is formatted.
use captive_portal_esp.Base.{
  ℕ, ◌≡◌, refl, sym, Bool, true, false, ◌||◌, Option, none, some, List, [], ◌∷◌, ◌++◌,
  if◌then◌else◌, ◌==◌, ltb, length, Bool-cases, Option-cases, ==_iff, inl, inr,
}
use captive_portal_esp.Bytes.{Bytes}
use captive_portal_esp.Esp.{EspErr, esp_ok, is_ok, is_invalid_state}
use captive_portal_esp.Rfid.Card.{Card}
use captive_portal_esp.Rfid.Manage.{
  admin_card_id, new_card, find_card, is_found, remove_first, check_found,
}
use captive_portal_esp.Rfid.Setup.{default_cards}
use captive_portal_esp.Rfid.Add.{spec_add}
use captive_portal_esp.Rfid.Remove.{spec_remove}
use captive_portal_esp.Rfid.Reset.{MadeFrom, Absent, Absent-last}
use captive_portal_esp.Rfid.Requests.{Request, Reply}
use captive_portal_esp.Rfid.Spec.{Shelf, AddsEach, Step, Trace}

-- No two cards have the same id.
abbrev pub UniqueIds : List Card → Type 0
UniqueIds [] = Unit
UniqueIds (c ∷ cs) = Absent cs c.card_id × UniqueIds cs

-- `rfid_manager_check_card(ADMIN_CARD_ID)` answers ESP_OK.
abbrev pub Admitted : List Card → Type 0
Admitted cards = check_found (find_card admin_card_id cards) ≡ esp_ok

-- A property of shelves that adding a card, removing one and resetting keep.
pub record Kept (P : List Card → Type 0) : Type 0 where
  pub add : (cards : List Card) (c : Card) → Absent cards c.card_id → P cards → P (cards ++ c ∷ [])
  pub remove :
      (cards left : List Card) (card_id : ℕ)
      → (card_id == admin_card_id) ≡ false
      → remove_first card_id cards ≡ some left
      → P cards
      → P left
  pub reset : (cards : List Card) → MadeFrom default_cards cards → P cards

-- The database is not formatted, or the property holds of no cards.
abbrev pub FormatKeeps : (List Card → Type 0) → Request → Type 0
FormatKeeps P Request.format = P []
FormatKeeps P _ = Unit

abbrev pub AllFormatKeep : (List Card → Type 0) → List Request → Type 0
AllFormatKeep P [] = Unit
AllFormatKeep P (request ∷ requests) = FormatKeeps P request × AllFormatKeep P requests

-- A call that does not format the database.
abbrev pub Plain : Request → Type 0
Plain Request.format = ⊥
Plain _ = Unit

abbrev pub NoFormat : List Request → Type 0
NoFormat [] = Unit
NoFormat (request ∷ requests) = Plain request × NoFormat requests

module _ {P : List Card → Type 0} (kept : Kept P) where
  spec_add-kept : (max : ℕ) (cards : List Card) (c : Card) → P cards → P (spec_add max cards c).1
  spec_add-kept max cards c p = elim (Bool-cases (is_found (find_card c.card_id cards))) [
    | inl there ↦ rw there p
    | inr absent ↦ elim (Bool-cases (ltb (length cards) max)) [
      | inl room ↦ rw (absent, room) (kept.add cards c absent p)
      | inr full ↦ rw (absent, full) p
    ]
  ]

  spec_remove-kept : (cards : List Card) (card_id : ℕ) → P cards → P (spec_remove cards card_id).1
  spec_remove-kept cards card_id p = elim (Bool-cases (card_id == admin_card_id)) [
    | inl admin ↦ rw admin p
    | inr user ↦ elim (Option-cases (remove_first card_id cards)) [
      | inl missing ↦ rw (user, missing) p
      | inr (left, found) ↦ rw (user, found) (kept.remove cards left card_id user found p)
    ]
  ]

  AddsEach-kept :
      (defaults : List (ℕ × Bytes)) (s : Shelf) (r : EspErr) (s' : Shelf)
      → AddsEach defaults s r s'
      → P s.cards
      → P s'.cards
  AddsEach-kept [] s r s' (e, same) p = rw same p
  AddsEach-kept ((card_id, name) ∷ more) s r s' (padding, now, rest) p =
      let card = new_card card_id name padding now in
      let out = spec_add s.capacity s.cards card in
      let p1 = spec_add-kept s.capacity s.cards card p in
      elim (Bool-cases (is_ok out.0 || is_invalid_state out.0)) [
        | inl goes ↦ AddsEach-kept more (record s { cards = out.1 }) r s' (rw goes at rest) p1
        | inr stops ↦ rw ((rw stops at rest).1) p1
      ]

  Step-kept :
      (request : Request) (s : Shelf) (r : Reply) (s' : Shelf)
      → FormatKeeps P request
      → Step request s r s'
      → P s.cards
      → P s'.cards
  Step-kept (Request.add card_id none) s r s' f (e, same) p = rw same p
  Step-kept (Request.add card_id (some name)) s r s' f (padding, now, (e, same)) p =
      rw same (spec_add-kept s.capacity s.cards (new_card card_id name padding now) p)
  Step-kept (Request.remove card_id) s r s' f (e, same) p =
      rw same (spec_remove-kept s.cards card_id p)
  Step-kept (Request.check card_id) s r s' f (e, same) p = rw same p
  Step-kept Request.count s r s' f (e, same) p = rw same p
  Step-kept Request.save s r s' f (e, same) p = rw same p
  Step-kept Request.load s r s' f (e, same) p = rw same p
  Step-kept Request.valid s r s' f (e, same) p = rw same p
  Step-kept Request.format s r s' f (e, same) p = rw same f
  Step-kept Request.defaults s r s' f (e, same, adds) p = AddsEach-kept default_cards s e s' adds p
  Step-kept Request.reset s r s' f (e, capacity, made) p = kept.reset s'.cards made
  Step-kept (Request.list max_cards) s r s' f (e, same) p = rw same p
  Step-kept (Request.list_json size) s r s' f (result, buffer, e, listed, same) p = rw same p

  pub Trace-kept :
      (requests : List Request) (s : Shelf) (replies : List Reply) (s' : Shelf)
      → AllFormatKeep P requests
      → Trace requests s replies s'
      → P s.cards
      → P s'.cards
  Trace-kept [] s [] s' f same p = rw same p
  Trace-kept [] s (r ∷ rs) s' f t p = absurd t
  Trace-kept (request ∷ requests) s [] s' f t p = absurd t
  Trace-kept (request ∷ requests) s (r ∷ rs) s' f (between, step, rest) p =
      Trace-kept requests between rs s' f.1 rest (Step-kept request s r between f.0 step p)

pub UniqueIds-last :
    (cs : List Card) (c : Card) → Absent cs c.card_id → UniqueIds cs → UniqueIds (cs ++ c ∷ [])
unfolding find_card
UniqueIds-last [] c h u = (refl, tt)
UniqueIds-last (x ∷ cs) c h u = elim (Bool-cases (x.card_id == c.card_id)) [
  | inl same ↦ cc (rw same at h)
  | inr apart ↦ (
    Absent-last x.card_id cs c u.0 (λ e. cc (apart, (==_iff x.card_id c.card_id).1 (sym e))),
    UniqueIds-last cs c (rw apart at h) u.1,
  )
]

-- What is left after a removal has no id that was not there, and keeps unique ids.
abbrev LeftUnique : List Card → Option (List Card) → Type 0
LeftUnique cards none = Unit
LeftUnique cards (some left) =
    ((card_id : ℕ) → Absent cards card_id → Absent left card_id) × UniqueIds left

Absent-tail :
    (c : Card) (cs : List Card) (card_id : ℕ) → Absent (c ∷ cs) card_id → Absent cs card_id
unfolding find_card
Absent-tail c cs card_id h = elim (Bool-cases (c.card_id == card_id)) [
  | inl same ↦ cc (rw same at h)
  | inr apart ↦ rw apart at h
]

Absent-cons :
    (c : Card) (cs left : List Card) (card_id : ℕ)
    → (Absent cs card_id → Absent left card_id)
    → Absent (c ∷ cs) card_id
    → Absent (c ∷ left) card_id
unfolding find_card
Absent-cons c cs left card_id f h = elim (Bool-cases (c.card_id == card_id)) [
  | inl same ↦ cc (rw same at h)
  | inr apart ↦ rw apart (f (rw apart at h))
]

LeftUnique-step :
    (b : Bool) (c : Card) (cs : List Card) (o : Option (List Card))
    → UniqueIds (c ∷ cs)
    → LeftUnique cs o
    → LeftUnique
        (c ∷ cs)
        (if b then some cs else elim o [ none ↦ none | some left ↦ some (c ∷ left) ])
LeftUnique-step true c cs o u l = (Absent-tail c cs, u.1)
LeftUnique-step false c cs none u l = tt
LeftUnique-step false c cs (some left) u l =
    ((λ card_id h. Absent-cons c cs left card_id (l.0 card_id) h), (l.0 c.card_id u.0, l.1))

pub LeftUnique-remove_first :
    (card_id : ℕ) (cards : List Card)
    → UniqueIds cards
    → LeftUnique cards (remove_first card_id cards)
unfolding remove_first
LeftUnique-remove_first card_id [] u = tt
LeftUnique-remove_first card_id (c ∷ cs) u =
    LeftUnique-step (c.card_id == card_id) c cs (remove_first card_id cs) u
      (LeftUnique-remove_first card_id cs u.1)
