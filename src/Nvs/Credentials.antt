-- ===== src/Nvs/Credentials.antt =====
-- components/nvs_storage/nvs_storage.c.
use Prim.Native.String.{String}
use captive_portal_esp.Base.{
  ℕ, Bool, true, false, not, ◌||◌, Option, none, some, [], ◌∷◌, ltb, ◌==◌, if◌then◌else◌,
}
use captive_portal_esp.Bytes.{Bytes}
use captive_portal_esp.Text.{put}
use captive_portal_esp.Esp.{EspErr, is_ok}
use captive_portal_esp.Nvs.Api.{
  Nvs, N, pure, ◌>>=◌, ◌>>◌, call, read, is_nvs_not_found, is_no_free_pages, is_new_version,
  open_handle, close_handle, close_and_return,
}

module _ {S : Type 0} (nvs : Nvs S) where
  -- `none` where an ESP_ERROR_CHECK aborts.
  abbrev error_check : EspErr → Option (Unit {0})
  error_check err = if is_ok err then some tt else none

  unfoldable pub init : N S (Option (Unit {0}))
  init = do
    err ← call nvs.flash_init
    if is_no_free_pages err || is_new_version err
        then (do
          erased ← call nvs.flash_erase
          if not (is_ok erased)
              then pure none
              else do again ← call nvs.flash_init; pure (error_check again))
        else pure (error_check err)

  unfoldable pub set_wifi_credentials : Bytes → Bytes → N S Bool
  set_wifi_credentials ssid password = do
    opened ← open_handle nvs
    if not opened then pure false else do
      ssid_set ← call (nvs.set_str "_ssid" ssid)
      if not (is_ok ssid_set) then close_and_return nvs false else do
        password_set ← call (nvs.set_str "_password" password)
        if not (is_ok password_set) then close_and_return nvs false else do
          committed ← call nvs.commit
          if not (is_ok committed) then close_and_return nvs false else close_and_return nvs true

  -- The read of one text into the caller's buffer: whether the function goes on, the length with the
  -- NUL that the library reports, and the buffer with one NUL more behind this. A buffer that has no room
  -- comes back longer: the bytes written behind it.
  unfoldable pub get_text : String → Bytes → N S (Bool × (ℕ × Bytes))
  get_text key buffer = do
    (err, len) ← read (nvs.get_len key)
    if not (is_ok err || is_nvs_not_found err)
        then pure (false, (len, buffer))
        else if not (ltb 0 len)
        then pure (true, (len, buffer))
        else do
          (err2, bytes) ← read (nvs.get_str key len)
          if not (is_ok err2)
              then pure (false, (len, put buffer 0 bytes))
              else pure (true, (len, put (put buffer 0 bytes) len (0 ∷ [])))

  -- The result, and the two buffers.
  unfoldable pub get_wifi_credentials : Bytes → Bytes → N S (Bool × (Bytes × Bytes))
  get_wifi_credentials ssid password = do
    opened ← open_handle nvs
    if not opened then pure (false, (ssid, password)) else do
      (ssid_read, (ssid_len, ssid_after)) ← get_text "_ssid" ssid
      if not ssid_read then close_and_return nvs (false, (ssid_after, password)) else do
        (password_read, (password_len, password_after)) ← get_text "_password" password
        if not password_read then close_and_return nvs (false, (ssid_after, password_after)) else do
          close_handle nvs
          if ssid_len == 0
              then pure (false, (ssid_after, password_after))
              else pure (true, (ssid_after, password_after))
