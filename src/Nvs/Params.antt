-- ===== src/Nvs/Params.antt =====
-- components/nvs_storage/custom_partition.c, over the partition "params".
use Prim.Native.String.{String}
use captive_portal_esp.Base.{
  ℕ, Bool, true, false, not, ◌||◌, Option, none, some, ltb, ◌==◌, if◌then◌else◌, length,
}
use captive_portal_esp.Bytes.{Bytes, c_string, codes}
use captive_portal_esp.Text.{put, zeros}
use captive_portal_esp.Esp.{is_ok}
use captive_portal_esp.Nvs.Api.{
  Nvs, N, pure, ◌>>=◌, ◌>>◌, call, read, is_nvs_not_found, is_no_free_pages, is_new_version,
  open_handle, close_and_return,
}

module _ {S : Type 0} (nvs : Nvs S) where
  unfoldable pub set_params : String → Bytes → N S Bool
  set_params key value = do
    opened ← open_handle nvs
    if not opened then pure false else do
      written ← call (nvs.set_str key value)
      if not (is_ok written) then close_and_return nvs false else do
        committed ← call nvs.commit
        if not (is_ok committed) then close_and_return nvs false else close_and_return nvs true

  -- The result, and the caller's buffer of `value_len` bytes.
  unfoldable pub get_params : String → Bytes → ℕ → N S (Bool × Bytes)
  get_params key value value_len = do
    opened ← open_handle nvs
    if not opened then pure (false, value) else do
      (err, required_size) ← read (nvs.get_len key)
      if not (is_ok err || is_nvs_not_found err)
          then close_and_return nvs (false, value)
          else if ltb value_len required_size
          then close_and_return nvs (false, value)
          else do
            (err2, bytes) ← read (nvs.get_str key required_size)
            let after = put value 0 bytes
            if not (is_ok err2) then close_and_return nvs (false, after) else do
              close_and_return nvs tt
              if length (c_string after) == 0 then pure (false, after) else pure (true, after)

  -- `nvs_custom_partition_test`, which the start runs.
  unfoldable pub partition_test : N S (Unit {0})
  partition_test = do
    set_params "test_key" (codes "Test Value")
    get_params "test_key" (zeros 64) 64
    set_params "test_key" (codes "Test Val")
    get_params "test_key" (zeros 64) 64
    pure tt

  -- `none` where the ESP_ERROR_CHECK aborts.
  unfoldable pub partition_init : N S (Option (Unit {0}))
  partition_init = do
    err ← call nvs.flash_init
    if is_no_free_pages err || is_new_version err
        then (do
          erased ← call nvs.flash_erase
          if not (is_ok erased) then pure none else do
            again ← call nvs.flash_init
            if not (is_ok again) then pure (some tt) else (partition_test >> pure (some tt)))
        else if not (is_ok err)
        then pure (some tt)
        else (partition_test >> pure (some tt))
