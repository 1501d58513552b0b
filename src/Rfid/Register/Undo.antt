-- ===== src/Rfid/Register/Undo.antt =====
-- Calls of components/rfid_manager/rfid_manager.c that undo others: a removal behind an addition, and a reset.
use mathlib.Core.Quot
use captive_portal_esp.Base.{
  ℕ, ◌^◌, ◌<◌, ◌≡◌, ◌≢◌, refl, sym, ◌∙◌, false, some, List, [], ◌∷◌, ◌++◌, ◌==◌, lt→ltb, length,
  Bool-cases, ==_refl, inl, inr, arith,
}
use captive_portal_esp.Bytes.{Bytes}
use captive_portal_esp.Esp.{Env, World, Reliable, ◌>>◌, esp_ok}
use captive_portal_esp.Rfid.Card.{Card}
use captive_portal_esp.Rfid.Represents.{Represents, Refines}
use captive_portal_esp.Rfid.Manage.{
  admin_card_id, find_card, new_card, remove_first, add_card, remove_card,
}
use captive_portal_esp.Rfid.Setup.{default_cards, reset_to_defaults}
use captive_portal_esp.Rfid.Add.{add_card-Adds}
use captive_portal_esp.Rfid.Remove.{remove_card-Refines}
use captive_portal_esp.Rfid.Reset.{MadeFrom, Absent, reset_to_defaults-MadeFrom}
use captive_portal_esp.Rfid.Register.{entry, SameEntries, register}
use captive_portal_esp.Rfid.Register.Order.{register_lem}

same_card :
    (card_id j : ℕ) (name p q : Bytes) (s t : ℕ) (xs ys : List Card)
    → entry (find_card j xs) ≡ entry (find_card j ys)
    → entry (find_card j (new_card card_id name p s ∷ xs))
      ≡ entry (find_card j (new_card card_id name q t ∷ ys))
unfolding find_card
same_card card_id j name p q s t xs ys later = elim (Bool-cases (card_id == j)) [
  | inl here ↦ rw here refl
  | inr further ↦ rw further later
]

MadeFrom-SameEntries :
    (defaults : List (ℕ × Bytes)) (xs ys : List Card)
    → MadeFrom defaults xs
    → MadeFrom defaults ys
    → SameEntries xs ys
MadeFrom-SameEntries [] [] [] m n j = refl
MadeFrom-SameEntries [] [] (y ∷ ys) m n j = elim n [ ]
MadeFrom-SameEntries [] (x ∷ xs) ys m n j = elim m [ ]
MadeFrom-SameEntries ((card_id, name) ∷ defaults) [] ys m n j = elim m [ ]
MadeFrom-SameEntries ((card_id, name) ∷ defaults) (x ∷ xs) [] m n j = elim n [ ]
MadeFrom-SameEntries ((card_id, name) ∷ defaults) (x ∷ xs) (y ∷ ys) ((p, s, ex), m) ((q, t, ey), n)
      j =
    rw (ex, ey) (same_card card_id j name p q s t xs ys (MadeFrom-SameEntries defaults xs ys m n j))

-- From whatever files, a reset leaves the same register.
pub reset_to_defaults_same :
    {env env' : Env} (rel : Reliable env) (rel' : Reliable env') (w w' : World)
    → register (reset_to_defaults env w).1 ≡ register (reset_to_defaults env' w').1
reset_to_defaults_same rel rel' w w' =
    let (cards, made, (_, r)) = reset_to_defaults-MadeFrom rel w in
    let (cards', made', (_, r')) = reset_to_defaults-MadeFrom rel' w' in
    register_lem cards _ r
    ∙ Quot.sound (MadeFrom-SameEntries default_cards cards cards' made made')
    ∙ sym (register_lem cards' _ r')

remove_first_last :
    (card_id : ℕ) (cards : List Card) (c : Card)
    → Absent cards card_id
    → c.card_id ≡ card_id
    → remove_first card_id (cards ++ c ∷ []) ≡ some cards
unfolding remove_first find_card
remove_first_last card_id [] c absent same = rw (same, ==_refl card_id) refl
remove_first_last card_id (x ∷ cs) c absent same = elim (Bool-cases (x.card_id == card_id)) [
  | inl here ↦ cc (rw here at absent)
  | inr further ↦ rw (further, remove_first_last card_id cs c (rw further at absent) same) refl
]

not_admin : (card_id : ℕ) → card_id ≢ admin_card_id → (card_id == admin_card_id) ≡ false
not_admin card_id user = ground arith

module _ {env : Env} (rel : Reliable env) {max : ℕ} (cards : List Card) where
  -- Where no platform call fails: adding a card whose id is new and not the admin card's, where
  -- there is room, and removing it again succeeds and leaves files that represent the same list as
  -- before.
  pub remove_card-add_card :
      (card_id : ℕ) (name : Bytes) (w : World)
      → Represents max cards w
      → card_id < 2 ^ 32
      → card_id ≢ admin_card_id
      → Absent cards card_id
      → length cards < max
      → Refines max
          ((add_card env card_id (some name) >> remove_card env card_id) w)
          (esp_ok, cards)
  remove_card-add_card card_id name w r range user absent room =
      let (padding, now, added) = add_card-Adds rel cards card_id name range w r in
      let (_, r') = (rw (absent, lt→ltb (length cards) max room) at added) in
      let removed =
        remove_card-Refines rel (cards ++ new_card card_id name padding now ∷ []) card_id _ r' in
      let gone = remove_first_last card_id cards (new_card card_id name padding now) absent refl in
      (rw (not_admin card_id user, gone) at removed)
