-- ===== src/Main/Cards.antt =====
-- The cards that the start of main/main.c leaves.
use captive_portal_esp.Base.{
  ℕ, ◌+◌, ◌≤◌, ◌≡◌, refl, ◌⊎◌, inl, inr, true, none, List, [], ◌++◌, length,
}
use captive_portal_esp.Esp.{Env, World, Reliable}
use captive_portal_esp.Storage.Mount
use captive_portal_esp.Storage.Mounted.{Mounts, init_mounts}
use captive_portal_esp.Rfid.Card.{Card}
use captive_portal_esp.Rfid.Represents.{Represents, Represents-same}
use captive_portal_esp.Rfid.Setup
use captive_portal_esp.Rfid.Setup.{default_cards}
use captive_portal_esp.Rfid.Store.{db_path, cards_path}
use captive_portal_esp.Rfid.Boot.{init_keeps, init_creates}
use captive_portal_esp.Rfid.Defaults.{HoldsAll, load_defaults_keeps}

module _ {env : Env} (rel : Reliable env) (mounts : Mounts env) (max : ℕ) (cards : List Card) where
  -- The files hold the cards, or there are no files yet.
  abbrev pub Found : World → Type 0
  Found w =
      Represents max cards w
      ⊎ ((w.files db_path ≡ none) × (w.files cards_path ≡ none) × (cards ≡ []) × (max ≡ 200))

  setup_cards :
      (w : World)
      → w.spiffs_initialized ≡ true
      → Found w
      → Represents max cards (Setup.init env w).1
  setup_cards w there (inl r) = (init_keeps rel w there cards r).1
  setup_cards w there (inr (no_database, no_cards, empty, capacity)) =
      rw (empty, capacity) (init_creates rel w there no_database no_cards).1

  Found-files : (w w' : World) → w'.files ≡ w.files → Found w → Found w'
  Found-files w w' same (inl r) = inl (Represents-same r same)
  Found-files w w' same (inr (no_database, no_cards, empty, capacity)) =
      inr (rw same no_database, rw same no_cards, empty, capacity)

  pub boot_cards :
      (w : World)
      → length cards + 3 ≤ max
      → Found w
      → (extra : List Card) × (length extra ≤ 3)
        × (let w' = (Setup.load_defaults env (Setup.init env (Mount.init env w).1).1).1 in
            Represents max (cards ++ extra) w' × HoldsAll (cards ++ extra) default_cards)
  boot_cards w room found =
      let (t, e) = init_mounts mounts w in
      let w1 : World = record w { tick = t; spiffs_initialized = true } in
      let set_up = setup_cards w1 refl (Found-files w w1 refl found) in
      let (extra, _, few, kept, all) =
        load_defaults_keeps rel cards (Setup.init env w1).1 room set_up in
      (extra, few, rw e (kept, all))
