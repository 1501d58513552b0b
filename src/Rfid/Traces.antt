-- ===== src/Rfid/Traces.antt =====
-- components/rfid_manager/rfid_manager.c against its specification: a sequence of calls is a sequence
-- of steps of the shelf.
use captive_portal_esp.Base.{
  ℕ, ◌*◌, refl, ap, ◌||◌, none, some, List, [], ◌∷◌, ltb, length, length-replicate, Bool-cases, inl,
  inr, arith,
}
use captive_portal_esp.Bytes.{Bytes}
use captive_portal_esp.Text.{zeros}
use captive_portal_esp.Esp.{is_ok, is_invalid_state, Env, World, Reliable}
use captive_portal_esp.Storage.{file_exists}
use captive_portal_esp.Rfid.Represents.{Represents}
use captive_portal_esp.Rfid.Manage.{add_card, new_card}
use captive_portal_esp.Rfid.Setup.{default_cards, ensure_database, add_each, load_defaults}
use captive_portal_esp.Rfid.Add.{spec_add, add_card-Adds}
use captive_portal_esp.Rfid.Remove.{remove_card-Refines, check_card-Refines}
use captive_portal_esp.Rfid.Defaults.{IdsInRange, format_database-Refines}
use captive_portal_esp.Rfid.Reset.{reset_to_defaults-MadeFrom}
use captive_portal_esp.Rfid.Refine.{
  get_card_count_refines, load_from_file-Refines, is_database_valid_refines, save_to_file-Refines,
  list_cards_refines,
}
use captive_portal_esp.Rfid.Entries.{Terminated}
use captive_portal_esp.Rfid.Listing.{get_card_list_json-Listed}
use captive_portal_esp.Rfid.Names.{Terminated-spec_add, Terminated-spec_remove, Terminated-MadeFrom}
use captive_portal_esp.Rfid.Requests.{Request, Reply, serve, serve_all}
use captive_portal_esp.Rfid.Spec.{Shelf, AddsEach, Step, Trace, InRange, AllInRange}

-- The files hold the shelf's cards, and every name ends.
abbrev pub Holding : Shelf → World → Type 0
Holding s w = Represents s.capacity s.cards w × Terminated s.cards

-- The call that ended so is a step from `s`.
abbrev Steps : Request → Shelf → Reply × World → Type 0
Steps request s (reply, w') = (s' : Shelf) × Step request s reply s' × Holding s' w'

module _ {env : Env} (rel : Reliable env) where
  add_each-AddsEach :
      (defaults : List (ℕ × Bytes)) (s : Shelf) (w : World)
      → IdsInRange defaults
      → Holding s w
      → (s' : Shelf) × AddsEach defaults s (add_each env defaults w).0 s'
        × Holding s' (add_each env defaults w).1
  unfolding add_each
  add_each-AddsEach [] s w ids h = (s, (refl, refl), h)
  add_each-AddsEach ((card_id, name) ∷ more) s w ids h =
      let (padding, now, done) = add_card-Adds rel s.cards card_id name ids.0 w h.0 in
      let out = spec_add s.capacity s.cards (new_card card_id name padding now) in
      let s1 = record s { cards = out.1 } in
      let w1 = (add_card env card_id (some name) w).1 in
      let h1 : Holding s1 w1 =
        (done.1, Terminated-spec_add s.capacity s.cards card_id name padding now h.1) in
      elim (Bool-cases (is_ok out.0 || is_invalid_state out.0)) [
        | inl goes ↦
            let (s', added, h') = add_each-AddsEach more s1 w1 ids.1 h1 in
            rw (done.0, goes) (s', (padding, now, rw goes added), h')
        | inr stops ↦ rw (done.0, stops) (s1, (padding, now, rw stops (refl, refl)), h1)
      ]

  load_defaults-Steps :
      (s : Shelf) (w : World)
      → Holding s w
      → Steps Request.defaults s (serve env Request.defaults w)
  unfolding serve load_defaults ensure_database file_exists
  load_defaults-Steps s w h =
      let (s', added, h') = add_each-AddsEach default_cards s w (omega arith) h in
      rw h.0.database (s', ((add_each env default_cards w).0, refl, added), h')

  add_none-Steps :
      (card_id : ℕ) (s : Shelf) (w : World)
      → Holding s w
      → Steps (Request.add card_id none) s (serve env (Request.add card_id none) w)
  unfolding serve add_card
  add_none-Steps card_id s w h = (s, (refl, refl), h)

  serve-Steps :
      (request : Request) (s : Shelf) (w : World)
      → InRange request
      → Holding s w
      → Steps request s (serve env request w)
  unfolding serve
  serve-Steps (Request.add card_id none) s w i h = add_none-Steps card_id s w h
  serve-Steps (Request.add card_id (some name)) s w i h =
      let (padding, now, done) = add_card-Adds rel s.cards card_id name i w h.0 in
      (
        record s { cards = (spec_add s.capacity s.cards (new_card card_id name padding now)).1 },
        (padding, now, (ap Reply.code done.0, refl)),
        (done.1, Terminated-spec_add s.capacity s.cards card_id name padding now h.1),
      )
  serve-Steps (Request.remove card_id) s w i h =
      let done = remove_card-Refines rel s.cards card_id w h.0 in
      (_, (ap Reply.code done.0, refl), (done.1, Terminated-spec_remove s.cards card_id h.1))
  serve-Steps (Request.check card_id) s w i h =
      let done = check_card-Refines rel s.cards card_id w h.0 in
      (s, (ap Reply.code done.0, refl), (done.1, h.1))
  serve-Steps Request.count s w i h =
      let done = get_card_count_refines rel s.cards w h.0 in
      (s, (ap Reply.number done.0, refl), (done.1, h.1))
  serve-Steps Request.save s w i h =
      let done = (save_to_file-Refines rel s.cards w h.0).0 in
      (s, (ap Reply.code done.0, refl), (done.1, h.1))
  serve-Steps Request.load s w i h =
      let done = load_from_file-Refines rel s.cards w h.0 in
      (s, (ap Reply.code done.0, refl), (done.1, h.1))
  serve-Steps Request.valid s w i h =
      let done = is_database_valid_refines rel s.cards w h.0 in
      (s, (ap Reply.answer done.0, refl), (done.1, h.1))
  serve-Steps Request.format s w i h =
      let done = format_database-Refines rel w in
      (record { capacity = 200; cards = [] }, (ap Reply.code done.0, refl), (done.1, tt))
  serve-Steps Request.defaults s w i h = load_defaults-Steps s w h
  serve-Steps Request.reset s w i h =
      let (cards, made, done) = reset_to_defaults-MadeFrom rel w in
      (
        record { capacity = 200; cards = cards },
        (ap Reply.code done.0, refl, made),
        (done.1, Terminated-MadeFrom default_cards cards made),
      )
  serve-Steps (Request.list max_cards) s w i h =
      let done =
        list_cards_refines rel s.cards w h.0 (zeros (max_cards * 44)) max_cards
          (length-replicate {0} {A = ℕ} (max_cards * 44) 0) in
      elim (Bool-cases (ltb max_cards (length s.cards))) [
        | inl small ↦ (s, (rw small (rw (done.0, small) refl), refl), (done.1, h.1))
        | inr enough ↦ (s, (rw enough (rw (done.0, enough) refl), refl), (done.1, h.1))
      ]
  serve-Steps (Request.list_json size) s w i h =
      let done =
        get_card_list_json-Listed rel s.cards w (zeros size) size h.0 h.1
          (length-replicate {0} {A = ℕ} size 0) i.0 i.1 in
      (s, (_, _, refl, done.0, refl), (done.1, h.1))

  -- Where no platform call fails, a sequence of calls with arguments in range does on the files
  -- exactly what a sequence of steps of the specification does on a shelf that the files hold: the
  -- replies are those of the steps, and at the end the files hold the shelf that they lead to.
  pub serve_all-Trace :
      (requests : List Request) (s : Shelf) (w : World)
      → AllInRange requests
      → Holding s w
      → (s' : Shelf) × Trace requests s (serve_all env requests w).0 s'
        × Holding s' (serve_all env requests w).1
  unfolding serve_all
  serve_all-Trace [] s w i h = (s, refl, h)
  serve_all-Trace (request ∷ requests) s w i h =
      let (between, step, h1) = serve-Steps request s w i.0 h in
      let (s', trace, h') = serve_all-Trace requests between (serve env request w).1 i.1 h1 in
      (s', (between, step, trace), h')
