-- ===== src/Rfid/Admin.antt =====
-- Unique ids and the admin card over whole sequences of calls of
-- components/rfid_manager/rfid_manager.c.
use captive_portal_esp.Base.{
  ℕ, ◌≡◌, refl, ◌∙◌, true, false, Option, none, some, List, [], ◌∷◌, ◌++◌, ◌==◌, Bool-cases, ==_iff,
  inl, inr,
}
use captive_portal_esp.Esp.{esp_ok, Env, World, Reliable}
use captive_portal_esp.Rfid.Card.{Card}
use captive_portal_esp.Rfid.Represents.{Represents}
use captive_portal_esp.Rfid.Manage.{admin_card_id, find_card, remove_first, check_found, check_card}
use captive_portal_esp.Rfid.Setup.{default_cards, reset_to_defaults}
use captive_portal_esp.Rfid.Remove.{check_card-Refines}
use captive_portal_esp.Rfid.Reset.{MadeFrom, reset_to_defaults-MadeFrom}
use captive_portal_esp.Rfid.Names.{Terminated-MadeFrom}
use captive_portal_esp.Rfid.Requests.{Request, serve_all}
use captive_portal_esp.Rfid.Spec.{Shelf, AllInRange}
use captive_portal_esp.Rfid.Traces.{serve_all-Trace}
use captive_portal_esp.Rfid.Invariants.{
  UniqueIds, Admitted, Kept, AllFormatKeep, NoFormat, Trace-kept, UniqueIds-last,
  LeftUnique-remove_first,
}

UniqueIds-MadeFrom : (cards : List Card) → MadeFrom default_cards cards → UniqueIds cards
unfolding find_card
UniqueIds-MadeFrom (a ∷ b ∷ c ∷ []) ((p, t, e), ((q, u, f), ((r, v, g), z))) =
    rw (e, f, g) ((refl, (refl, (refl, tt))))
UniqueIds-MadeFrom [] m = absurd m
UniqueIds-MadeFrom (a ∷ []) m = absurd m.1
UniqueIds-MadeFrom (a ∷ b ∷ []) m = absurd m.1.1
UniqueIds-MadeFrom (a ∷ b ∷ c ∷ d ∷ cs) m = absurd m.1.1.1

UniqueIds-Kept : Kept UniqueIds
UniqueIds-Kept = record {
  add = λ cards c absent u. UniqueIds-last cards c absent u;
  remove =
      λ cards left card_id user found u. (rw found at (LeftUnique-remove_first card_id cards u)).1;
  reset = UniqueIds-MadeFrom;
}

AllFormatKeep-UniqueIds : (requests : List Request) → AllFormatKeep UniqueIds requests
AllFormatKeep-UniqueIds [] = tt
AllFormatKeep-UniqueIds (Request.format ∷ requests) = (tt, AllFormatKeep-UniqueIds requests)
AllFormatKeep-UniqueIds (Request.add i name ∷ requests) = (tt, AllFormatKeep-UniqueIds requests)
AllFormatKeep-UniqueIds (Request.remove i ∷ requests) = (tt, AllFormatKeep-UniqueIds requests)
AllFormatKeep-UniqueIds (Request.check i ∷ requests) = (tt, AllFormatKeep-UniqueIds requests)
AllFormatKeep-UniqueIds (Request.count ∷ requests) = (tt, AllFormatKeep-UniqueIds requests)
AllFormatKeep-UniqueIds (Request.save ∷ requests) = (tt, AllFormatKeep-UniqueIds requests)
AllFormatKeep-UniqueIds (Request.load ∷ requests) = (tt, AllFormatKeep-UniqueIds requests)
AllFormatKeep-UniqueIds (Request.valid ∷ requests) = (tt, AllFormatKeep-UniqueIds requests)
AllFormatKeep-UniqueIds (Request.defaults ∷ requests) = (tt, AllFormatKeep-UniqueIds requests)
AllFormatKeep-UniqueIds (Request.reset ∷ requests) = (tt, AllFormatKeep-UniqueIds requests)
AllFormatKeep-UniqueIds (Request.list i ∷ requests) = (tt, AllFormatKeep-UniqueIds requests)
AllFormatKeep-UniqueIds (Request.list_json i ∷ requests) = (tt, AllFormatKeep-UniqueIds requests)

Admitted-append : (cs ds : List Card) → Admitted cs → Admitted (cs ++ ds)
unfolding find_card check_found
Admitted-append [] ds a = cc a
Admitted-append (c ∷ cs) ds a = elim (Bool-cases (c.card_id == admin_card_id)) [
  | inl admin ↦ rw admin (rw admin at a)
  | inr other ↦ rw other (Admitted-append cs ds (rw other at a))
]

Admitted-MadeFrom : (cards : List Card) → MadeFrom default_cards cards → Admitted cards
unfolding find_card check_found
Admitted-MadeFrom [] m = absurd m
Admitted-MadeFrom (c ∷ cs) ((p, t, e), rest) = rw e refl

abbrev LeftAdmitted : Option (List Card) → Type 0
LeftAdmitted none = Unit
LeftAdmitted (some left) = Admitted left

LeftAdmitted-cons :
    (c : Card) (cs : List Card) (o : Option (List Card))
    → Admitted (c ∷ cs)
    → (Admitted cs → LeftAdmitted o)
    → LeftAdmitted (elim o [ none ↦ none | some left ↦ some (c ∷ left) ])
unfolding find_card check_found
LeftAdmitted-cons c cs none a f = tt
LeftAdmitted-cons c cs (some left) a f = elim (Bool-cases (c.card_id == admin_card_id)) [
  | inl admin ↦ rw admin (rw admin at a)
  | inr other ↦ rw other (f (rw other at a))
]

Admitted-tail :
    (c : Card) (cs : List Card) (card_id : ℕ)
    → (c.card_id == card_id) ≡ true
    → (card_id == admin_card_id) ≡ false
    → Admitted (c ∷ cs)
    → Admitted cs
unfolding find_card check_found
Admitted-tail c cs card_id here user a =
    let other : (c.card_id == admin_card_id) ≡ false =
      rw ((==_iff c.card_id card_id).0 here) user in
    rw other at a

LeftAdmitted-remove_first :
    (card_id : ℕ) (cards : List Card)
    → (card_id == admin_card_id) ≡ false
    → Admitted cards
    → LeftAdmitted (remove_first card_id cards)
unfolding remove_first
LeftAdmitted-remove_first card_id [] user a = tt
LeftAdmitted-remove_first card_id (c ∷ cs) user a = elim (Bool-cases (c.card_id == card_id)) [
  | inl here ↦ rw here (Admitted-tail c cs card_id here user a)
  | inr further ↦ rw further (
      LeftAdmitted-cons c cs (remove_first card_id cs) a
        (LeftAdmitted-remove_first card_id cs user))
]

Admitted-Kept : Kept Admitted
Admitted-Kept = record {
  add = λ cards c absent a. Admitted-append cards (c ∷ []) a;
  remove = λ cards left card_id user found a.
      rw found at (LeftAdmitted-remove_first card_id cards user a);
  reset = Admitted-MadeFrom;
}

AllFormatKeep-Admitted :
    (requests : List Request) → NoFormat requests → AllFormatKeep Admitted requests
AllFormatKeep-Admitted [] n = tt
AllFormatKeep-Admitted (Request.format ∷ requests) n = absurd n.0
AllFormatKeep-Admitted (Request.add i name ∷ requests) n = (tt, AllFormatKeep-Admitted requests n.1)
AllFormatKeep-Admitted (Request.remove i ∷ requests) n = (tt, AllFormatKeep-Admitted requests n.1)
AllFormatKeep-Admitted (Request.check i ∷ requests) n = (tt, AllFormatKeep-Admitted requests n.1)
AllFormatKeep-Admitted (Request.count ∷ requests) n = (tt, AllFormatKeep-Admitted requests n.1)
AllFormatKeep-Admitted (Request.save ∷ requests) n = (tt, AllFormatKeep-Admitted requests n.1)
AllFormatKeep-Admitted (Request.load ∷ requests) n = (tt, AllFormatKeep-Admitted requests n.1)
AllFormatKeep-Admitted (Request.valid ∷ requests) n = (tt, AllFormatKeep-Admitted requests n.1)
AllFormatKeep-Admitted (Request.defaults ∷ requests) n = (tt, AllFormatKeep-Admitted requests n.1)
AllFormatKeep-Admitted (Request.reset ∷ requests) n = (tt, AllFormatKeep-Admitted requests n.1)
AllFormatKeep-Admitted (Request.list i ∷ requests) n = (tt, AllFormatKeep-Admitted requests n.1)
AllFormatKeep-Admitted (Request.list_json i ∷ requests) n =
    (tt, AllFormatKeep-Admitted requests n.1)

module _ {env : Env} (rel : Reliable env) (requests : List Request) (w : World)
    (in_range : AllInRange requests) where
  -- Where no platform call fails: after a reset of any files and any sequence of calls with
  -- arguments in range, the files represent cards of which no two have the same id, for some
  -- capacity.
  pub ids_unique_after_reset :
      (capacity : ℕ) × (cards : List Card) × Represents capacity cards
        (serve_all env requests (reset_to_defaults env w).1).1
      × UniqueIds cards
  ids_unique_after_reset =
      let (cards, made, done) = reset_to_defaults-MadeFrom rel w in
      let s : Shelf = record { capacity = 200; cards = cards } in
      let (s', trace, holding) =
        serve_all-Trace rel requests s (reset_to_defaults env w).1 in_range
          (done.1, Terminated-MadeFrom default_cards cards made) in
      (
        s'.capacity,
        s'.cards,
        holding.0,
        Trace-kept UniqueIds-Kept requests s _ s' (AllFormatKeep-UniqueIds requests) trace
            (UniqueIds-MadeFrom cards made),
      )

  -- Where no platform call fails: after a reset of any files and any sequence of calls with
  -- arguments in range, none of which formats the database, the admin card is still accepted.
  pub admin_accepted_after_reset :
      NoFormat requests
      → (check_card env admin_card_id (serve_all env requests (reset_to_defaults env w).1).1).0
        ≡ esp_ok
  admin_accepted_after_reset none_formats =
      let (cards, made, done) = reset_to_defaults-MadeFrom rel w in
      let s : Shelf = record { capacity = 200; cards = cards } in
      let (s', trace, holding) =
        serve_all-Trace rel requests s (reset_to_defaults env w).1 in_range
          (done.1, Terminated-MadeFrom default_cards cards made) in
      let admitted =
        Trace-kept Admitted-Kept requests s _ s' (AllFormatKeep-Admitted requests none_formats)
          trace (Admitted-MadeFrom cards made) in
      (check_card-Refines rel s'.cards admin_card_id _ holding.0).0 ∙ admitted
