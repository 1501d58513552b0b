-- ===== src/Rfid/Boot.antt =====
-- `rfid_manager_init` of components/rfid_manager/rfid_manager.c, on a file system that is mounted.
use captive_portal_esp.Base.{
  ℕ, ◌+◌, ◌≡◌, refl, ap, true, none, some, List, [], Bool-cases, inl, inr,
}
use captive_portal_esp.Esp.{Env, World, Reliable, esp_ok, update}
use captive_portal_esp.Storage.{content, file_exists, is_initialized}
use captive_portal_esp.Rfid.Card.{Card, encode_database}
use captive_portal_esp.Rfid.Represents.{
  Represents, Represents-same, Refines, write_database-Reliable,
}
use captive_portal_esp.Rfid.Store.{db_path, cards_path, empty_database}
use captive_portal_esp.Rfid.Defaults.{empty-Represents}
use captive_portal_esp.Rfid.Refine.{load_from_file-Refines}
use captive_portal_esp.Rfid.Setup.{create_mutex, ensure_storage, ensure_database, init}

module _ {env : Env} (rel : Reliable env) where
  create_mutex_lem :
      (w : World)
      → (t : ℕ) × (create_mutex env w ≡ (true, record w { tick = t; rfid_mutex = true }))
  unfolding create_mutex
  create_mutex_lem w = elim (Bool-cases w.rfid_mutex) [
    | inl there ↦ (w.tick, rw there refl)
    | inr missing ↦ (w.tick + 1, rw (missing, rel.semaphore_created w.tick) refl)
  ]

module _ {env : Env} (rel : Reliable env) (w : World) (mounted : w.spiffs_initialized ≡ true) where
  abbrev made : ℕ → World
  made t = record w { tick = t; rfid_mutex = true; spiffs_initialized = true }

  keeps_from :
      {max : ℕ} (cards : List Card) (t : ℕ)
      → create_mutex env w ≡ (true, record w { tick = t; rfid_mutex = true })
      → Represents max cards w
      → Refines max (init env w) (esp_ok, cards)
  unfolding init ensure_storage is_initialized ensure_database file_exists
  keeps_from cards t e r =
      let loaded = load_from_file-Refines rel cards (made t) (Represents-same r refl) in
      rw (e, mounted, r.database, loaded.0) (refl, loaded.1)

  creates_from :
      (t : ℕ)
      → create_mutex env w ≡ (true, record w { tick = t; rfid_mutex = true })
      → w.files db_path ≡ none
      → w.files cards_path ≡ none
      → Refines 200 (init env w) (esp_ok, [])
  unfolding init ensure_storage is_initialized ensure_database file_exists
  creates_from t e no_database no_cards =
      let (t2, e2) = write_database-Reliable rel empty_database (made t) in
      let w2 : World = record (made t) {
        tick = t2;
        files = update w.files db_path (some (encode_database empty_database));
      } in
      let loaded =
        load_from_file-Refines rel [] w2 (empty-Represents rel w2 refl (ap content no_cards)) in
      rw (e, mounted, no_database, e2, loaded.0) (refl, loaded.1)

  -- Where no platform call fails and the file system is mounted, the start succeeds and leaves
  -- cards that are there as they are.
  pub init_keeps :
      {max : ℕ} (cards : List Card)
      → Represents max cards w
      → Refines max (init env w) (esp_ok, cards)
  init_keeps cards r = let (t, e) = create_mutex_lem rel w in keeps_from cards t e r

  -- Where no platform call fails, the file system is mounted and neither file is there, the start
  -- succeeds and leaves an empty database for 200 cards.
  pub init_creates :
      w.files db_path ≡ none → w.files cards_path ≡ none → Refines 200 (init env w) (esp_ok, [])
  init_creates no_database no_cards =
      let (t, e) = create_mutex_lem rel w in creates_from t e no_database no_cards
