-- ===== src/Rfid/Names.antt =====
-- A NUL ends the name of every card that components/rfid_manager/rfid_manager.c makes, and stays.
use captive_portal_esp.Base.{
  ℕ, zero, suc, ◌-◌, ◌≤◌, ◌<◌, Bool, true, false, Option, none, some, List, [], ◌∷◌, ◌++◌,
  if◌then◌else◌, ◌==◌, ltb, length, take, replicate, length-take, Bool-cases, inl, inr, arith,
}
use captive_portal_esp.Bytes.{Bytes, c_string}
use captive_portal_esp.Esp.{EspErr}
use captive_portal_esp.Rfid.Card.{Card}
use captive_portal_esp.Rfid.Manage.{
  admin_card_id, find_card, is_found, name_field, new_card, remove_first,
}
use captive_portal_esp.Rfid.Add.{spec_add}
use captive_portal_esp.Rfid.Remove.{spec_remove}
use captive_portal_esp.Rfid.Reset.{MadeFrom}
use captive_portal_esp.Rfid.Entries.{Terminated}

c_string_zeros : (b : Bytes) (k : ℕ) → 0 < k → length (c_string (b ++ replicate k 0)) ≤ length b
c_string_zeros [] zero h = absurd (omega arith)
c_string_zeros [] (suc k) h = omega arith
c_string_zeros (c ∷ b) k h = elim (Bool-cases (c == 0)) [
  | inl nul ↦ rw nul (omega arith)
  | inr more ↦ rw more (omega (arith, c_string_zeros b k h))
]

c_string-name_field : (name : Bytes) → length (c_string (name_field name)) < 32
unfolding name_field
c_string-name_field name =
    let text : Bytes = take 31 (c_string name) in
    let size : length text ≤ 31 = omega (arith, length-take {0} 31 (c_string name)) in
    omega (arith, size, c_string_zeros text (32 - length text) (omega (arith, size)))

Terminated-append : (cs ds : List Card) → Terminated cs → Terminated ds → Terminated (cs ++ ds)
Terminated-append [] ds t u = u
Terminated-append (c ∷ cs) ds t u = (t.0, Terminated-append cs ds t.1 u)

pub Terminated-spec_add :
    (max : ℕ) (cards : List Card) (card_id : ℕ) (name padding : Bytes) (now : ℕ)
    → Terminated cards
    → Terminated (spec_add max cards (new_card card_id name padding now)).1
Terminated-spec_add max cards card_id name padding now t =
    let added =
      Terminated-append cards (new_card card_id name padding now ∷ []) t
        (c_string-name_field name, tt) in
    elim (Bool-cases (is_found (find_card card_id cards))) [
      | inl there ↦ rw there t
      | inr absent ↦ elim (Bool-cases (ltb (length cards) max)) [
        | inl room ↦ rw (absent, room) added
        | inr full ↦ rw (absent, full) t
      ]
    ]

abbrev TerminatedLeft : Option (List Card) → Type 0
TerminatedLeft none = Unit
TerminatedLeft (some left) = Terminated left

remove_first_step :
    (b : Bool) (c : Card) (cs : List Card) (o : Option (List Card))
    → Terminated (c ∷ cs)
    → TerminatedLeft o
    → TerminatedLeft (if b then some cs else elim o [ none ↦ none | some left ↦ some (c ∷ left) ])
remove_first_step true c cs o t u = t.1
remove_first_step false c cs none t u = tt
remove_first_step false c cs (some left) t u = (t.0, u)

TerminatedLeft-remove_first :
    (card_id : ℕ) (cards : List Card)
    → Terminated cards
    → TerminatedLeft (remove_first card_id cards)
unfolding remove_first
TerminatedLeft-remove_first card_id [] t = tt
TerminatedLeft-remove_first card_id (c ∷ cs) t =
    remove_first_step (c.card_id == card_id) c cs (remove_first card_id cs) t
      (TerminatedLeft-remove_first card_id cs t.1)

pub Terminated-spec_remove :
    (cards : List Card) (card_id : ℕ) → Terminated cards → Terminated (spec_remove cards card_id).1
Terminated-spec_remove cards card_id t = elim (Bool-cases (card_id == admin_card_id)) [
  | inl admin ↦ rw admin t
  | inr user ↦
      rw user (go (remove_first card_id cards) (TerminatedLeft-remove_first card_id cards t))
]
  where
    go :
        (o : Option (List Card))
        → TerminatedLeft o
        → Terminated
            (elim o as (λ _. EspErr × List Card) [
              | none ↦ (EspErr.not_found, cards)
              | some left ↦ (EspErr.esp_ok, left)
            ]).1
    go none u = t
    go (some left) u = u

pub Terminated-MadeFrom :
    (defaults : List (ℕ × Bytes)) (cards : List Card) → MadeFrom defaults cards → Terminated cards
Terminated-MadeFrom [] [] m = tt
Terminated-MadeFrom ((card_id, name) ∷ defaults) (c ∷ cs) m =
    let (padding, now, e) = m.0 in
    ((rw e (c_string-name_field name)), Terminated-MadeFrom defaults cs m.1)
Terminated-MadeFrom [] (c ∷ cs) m = absurd m
Terminated-MadeFrom (d ∷ defaults) [] m = absurd m
