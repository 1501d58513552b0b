-- ===== src/Storage/Mounted.antt =====
-- `spiffs_storage_init` of components/spiffs_storage/spiffs_storage.c with a driver that finds a sound file system.
use captive_portal_esp.Base.{
  ℕ, ◌+◌, ◌≤◌, ◌≡◌, refl, true, false, ltb, le→ltb_false, Option, Bool-cases, inl, inr,
}
use Prim.Native.String.{String}
use captive_portal_esp.Bytes.{Bytes}
use captive_portal_esp.Esp.{Env, World, esp_ok}
use captive_portal_esp.Storage.Mount.{init, check_info, finish_init, list_files}

-- The driver mounts the partition, finds nothing to mend, and leaves the files.
pub record Mounts (env : Env) : Type 0 where
  pub register_ok : (t : ℕ) → env.spiffs_register t ≡ esp_ok
  pub check_ok : (t : ℕ) → env.spiffs_check t ≡ esp_ok
  pub info_ok : (t : ℕ) → env.spiffs_info t ≡ esp_ok
  pub used_fits : (t : ℕ) → env.spiffs_used t ≤ env.spiffs_total t
  pub files_kept : (t : ℕ) (files : String → Option Bytes) → env.driver_files t files ≡ files

module _ {env : Env} (m : Mounts env) where
  finish_init_lem :
      (w : World)
      → (t : ℕ) × (finish_init env w ≡ (true, record w { tick = t; spiffs_initialized = true }))
  unfolding finish_init list_files
  finish_init_lem w = elim (Bool-cases (env.opendir_ok w.tick)) [
    | inl opened ↦ (w.tick + 1, rw opened refl)
    | inr missing ↦ (w.tick + 1, rw missing refl)
  ]

  pub init_mounts :
      (w : World)
      → (t : ℕ) × (init env w ≡ (true, record w { tick = t; spiffs_initialized = true }))
  unfolding init check_info
  init_mounts w = elim (Bool-cases w.spiffs_initialized) [
    | inl there ↦ (w.tick, rw there refl)
    | inr missing ↦
        let t : ℕ = w.tick in
        let (t2, finished) =
          finish_init_lem (record w { tick = t + 1 + 1 + 1; spiffs_initialized = false }) in
        let fits : ltb (env.spiffs_total (t + 1 + 1)) (env.spiffs_used (t + 1 + 1)) ≡ false =
          le→ltb_false _ _ (m.used_fits (t + 1 + 1)) in
        (
          t2,
          rw
              (
                missing,
                m.register_ok t,
                m.files_kept t w.files,
                m.check_ok (t + 1),
                m.files_kept (t + 1) w.files,
                m.info_ok (t + 1 + 1),
                fits,
              )
              finished,
        )
  ]
