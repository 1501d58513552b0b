-- ===== src/Nvs/SelfTests.antt =====
-- The tests of components/nvs_storage/nvs_storage.c that run on the device.
use Prim.Native.String.{String}
use captive_portal_esp.Base.{
  ℕ, ◌+◌, ◌%◌, ◌^◌, ◌<◌, ◌≡◌, ◌∙◌, Bool, true, false, not, Option, none, some, if◌then◌else◌, arith,
}
use captive_portal_esp.Bytes.{codes}
use captive_portal_esp.Text.{zeros}
use captive_portal_esp.Esp.{esp_ok, is_ok}
use captive_portal_esp.Nvs.Api.{
  Nvs, Session, N, pure, ◌>>=◌, call, read, open_handle, close_handle, close_and_return,
}
use captive_portal_esp.Nvs.Credentials.{set_wifi_credentials, get_wifi_credentials}

abbrev counter_key : String
counter_key = "restart_counter"

module _ {S : Type 0} (nvs : Nvs S) where
  -- The counter stays 0 where it cannot be read. Results are only printed.
  unfoldable pub nvs_storage_test : N S Bool
  nvs_storage_test = do
    opened ← open_handle nvs
    if not opened then pure true else do
      (err, found) ← read (nvs.get_i32 counter_key)
      let restart_counter = if is_ok err then found else 0
      written ← call (nvs.set_i32 counter_key ((restart_counter + 1) % 2 ^ 32))
      committed ← call nvs.commit
      close_and_return nvs true

  unfoldable pub wifi_credentials_test : N S Bool
  wifi_credentials_test = do
    found ← get_wifi_credentials nvs (zeros 64) (zeros 64)
    written ← set_wifi_credentials nvs (codes "TestSSID") (codes "TestPassword")
    pure true

  -- What the library's documentation says of numbers: they are kept under their keys.
  pub record KeepsNumbers : Type 0 where
    pub number : S → String → Option ℕ
    pub get_some :
        (k : String) (s : S) (v : ℕ) → number s k ≡ some v → nvs.get_i32 k s ≡ (esp_ok, v)
    pub get_none : (k : String) (s : S) → number s k ≡ none → is_ok (nvs.get_i32 k s).0 ≡ false
    pub set_same :
        (k : String) (v : ℕ) (s : S) → v < 2 ^ 32 → number (nvs.set_i32 k v s).1 k ≡ some v
    pub open_ok : (s : S) → (nvs.nvs_open s).0 ≡ esp_ok
    pub open_keeps : (s : S) (k : String) → number (nvs.nvs_open s).1 k ≡ number s k
    pub commit_keeps : (s : S) (k : String) → number (nvs.commit s).1 k ≡ number s k
    pub close_keeps : (s : S) (k : String) → number (nvs.nvs_close s) k ≡ number s k

abbrev counted : Option ℕ → ℕ
counted none = 0
counted (some v) = v

module _ {S : Type 0} {nvs : Nvs S} (keeps : KeepsNumbers nvs) where
  number_kept :
      (v : ℕ) (s : S)
      → v < 2 ^ 32
      → keeps.number (nvs.nvs_close (nvs.commit (nvs.set_i32 counter_key v s).1).1) counter_key
        ≡ some v
  number_kept v s h =
      keeps.close_keeps _ counter_key
      ∙ keeps.commit_keeps _ counter_key
      ∙ keeps.set_same counter_key v s h

  nvs_storage_test_ends :
      (w : Session S) (before : Option ℕ)
      → keeps.number (nvs.nvs_open w.store).1 counter_key ≡ before
      → keeps.number (nvs_storage_test nvs w).1.store counter_key
        ≡ some ((counted before + 1) % 2 ^ 32)
  unfolding nvs_storage_test open_handle close_handle
  nvs_storage_test_ends w none e =
      rw (keeps.open_ok w.store, keeps.get_none counter_key (nvs.nvs_open w.store).1 e)
        (number_kept 1 (nvs.nvs_open w.store).1 (omega arith))
  nvs_storage_test_ends w (some v) e =
      rw (keeps.open_ok w.store, keeps.get_some counter_key (nvs.nvs_open w.store).1 v e)
        (number_kept ((v + 1) % 2 ^ 32) (nvs.nvs_open w.store).1 (omega arith))

  -- Each run counts one more, from 0 where no counter is kept.
  nvs_storage_test_counts :
      (w : Session S)
      → keeps.number (nvs_storage_test nvs w).1.store counter_key
        ≡ some ((counted (keeps.number w.store counter_key) + 1) % 2 ^ 32)
  nvs_storage_test_counts w = nvs_storage_test_ends w _ (keeps.open_keeps w.store counter_key)
