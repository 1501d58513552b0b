-- ===== src/Storage/Mount.antt =====
-- Mounting: `spiffs_storage_init`, `spiffs_storage_list_files` and `spiffs_storage_deinit` of
-- components/spiffs_storage/spiffs_storage.c.
use captive_portal_esp.Base.{ℕ, ◌+◌, Bool, true, false, not, ◌||◌, ltb, if◌then◌else◌}
use captive_portal_esp.Esp.{EspErr, is_ok, is_invalid_state, Env, M, pure, ◌>>=◌, ◌>>◌, gets, ask}

module _ (env : Env) where
  -- The directory's entries are only logged.
  unfoldable pub list_files : M Bool
  list_files = do dir ← ask env.opendir_ok; if not dir then pure false else pure true

  abbrev pub mark_initialized : Bool → M (Unit {0})
  mark_initialized b w = (tt, record w { spiffs_initialized = b })

  -- The end of `spiffs_storage_init`, from `spiffs_storage_list_files()`.
  unfoldable pub finish_init : M Bool
  unfolding list_files
  finish_init = do list_files; mark_initialized true; pure true

  -- A call of the driver that may also change the files: it formats, mends or mounts.
  abbrev pub driver : (ℕ → EspErr) → M EspErr
  driver outcome w =
      (outcome w.tick, record w { tick = w.tick + 1; files = env.driver_files w.tick w.files })

  -- `used > total`: the driver is asked to check once more.
  unfoldable pub check_again : M Bool
  unfolding finish_init
  check_again = do
    again ← driver env.spiffs_check
    if not (is_ok again) then pure false else finish_init

  -- From `esp_spiffs_info` on; where it fails, the partition is formatted.
  unfoldable pub check_info : M Bool
  unfolding finish_init check_again
  check_info = do
    (ret, total, used) ← ask (λ t. (env.spiffs_info t, env.spiffs_total t, env.spiffs_used t))
    if not (is_ok ret)
        then driver env.spiffs_format >> pure false
        else if ltb total used
        then check_again
        else finish_init

  -- `esp_vfs_spiffs_register` did not return ESP_OK.
  abbrev pub not_registered : EspErr → M Bool
  not_registered ret =
      if is_invalid_state ret then mark_initialized true >> pure true else pure false

  unfoldable pub init : M Bool
  unfolding check_info
  init = do
    done ← gets (λ w. w.spiffs_initialized)
    if done then pure true else do
      ret ← driver env.spiffs_register
      if not (is_ok ret) then not_registered ret else do
        checked ← driver env.spiffs_check
        if not (is_ok checked) then pure false else check_info

  unfoldable pub deinit : M (Unit {0})
  deinit = do
    done ← gets (λ w. w.spiffs_initialized)
    if not done then pure tt else do
      ret ← driver env.spiffs_unregister
      if is_ok ret || is_invalid_state ret then mark_initialized false else pure tt
