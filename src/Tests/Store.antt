-- ===== src/Tests/Store.antt =====
-- A store in which nothing fails, and runs of the credentials, the parameters, the wait for the time and the
-- handler that keeps credentials.
use Prim.Native.String.{String}
use text.Mathlib.Text.{◌==◌ as str_eq}
use text.Mathlib.TextEquality.{eq_iff}
use text.Mathlib.TextPositions.{eq_refl}
use captive_portal_esp.Base.{
  ℕ, zero, suc, ◌+◌, ◌≤◌, ◌≡◌, ◌≢◌, refl, ap, true, Option, none, some, List, [], ◌∷◌, ◌++◌, length,
  drop, arith, if◌then◌else◌, Bool-cases, inl, inr,
}
use captive_portal_esp.Bytes.{Bytes, le32, read32, codes}
use captive_portal_esp.Text.{zeros}
use captive_portal_esp.Esp.{EspErr, esp_ok, timeout}
use captive_portal_esp.Nvs.Api.{Nvs, Dependable, Session, nvs_not_found}
use captive_portal_esp.Nvs.Credentials.{set_wifi_credentials, get_wifi_credentials}
use captive_portal_esp.Nvs.Params.{set_params, get_params}
use captive_portal_esp.Nvs.Keeps.{get_params-set_params}
use captive_portal_esp.Nvs.Handles.{Call, run_all, handles_closed}
use captive_portal_esp.Nvs.Room.{
  get_wifi_credentials_room, get_wifi_credentials-set_wifi_credentials,
}
use captive_portal_esp.Wifi.{Station}
use captive_portal_esp.TimeSync.{Clock, time_sync_init, Synchronised, time_sync_init-Synchronised}

abbrev pub Entries : Type 0
Entries = String → Option Bytes

abbrev found_length : Option Bytes → EspErr × ℕ
found_length none = (nvs_not_found, 0)
found_length (some b) = (esp_ok, length b)

abbrev found_bytes : Option Bytes → EspErr × Bytes
found_bytes none = (nvs_not_found, [])
found_bytes (some b) = (esp_ok, b)

abbrev set_entry : String → Bytes → Entries → Entries
set_entry k v s j = if str_eq k j then some (v ++ 0 ∷ []) else s j

abbrev found_number : Option Bytes → EspErr × ℕ
found_number none = (nvs_not_found, 0)
found_number (some b) = (esp_ok, read32 b)

abbrev set_number : String → ℕ → Entries → Entries
set_number k v s j = if str_eq k j then some (le32 v) else s j

abbrev pub memory : Nvs Entries
memory = record {
  flash_init = λ s. (esp_ok, s);
  flash_erase = λ s. (esp_ok, λ k. none);
  nvs_open = λ s. (esp_ok, s);
  set_str = λ k v s. (esp_ok, set_entry k v s);
  get_len = λ k s. found_length (s k);
  get_str = λ k n s. found_bytes (s k);
  set_i32 = λ k v s. (esp_ok, set_number k v s);
  get_i32 = λ k s. found_number (s k);
  commit = λ s. (esp_ok, s);
  nvs_close = λ s. s;
}

set_entry_other : (k j : String) (v : Bytes) (s : Entries) → k ≢ j → set_entry k v s j ≡ s j
set_entry_other k j v s differ = elim (Bool-cases (str_eq k j)) [
  | inl same ↦ absurd (differ ((eq_iff k j).0 same))
  | inr other ↦ rw other refl
]

pub memory-Dependable : Dependable memory
memory-Dependable = record {
  lookup = λ s k. s k;
  flash_init_ok = λ s. refl;
  flash_init_keeps = λ s k. refl;
  open_ok = λ s. refl;
  set_ok = λ k v s. refl;
  commit_ok = λ s. refl;
  open_keeps = λ s k. refl;
  commit_keeps = λ s k. refl;
  close_keeps = λ s k. refl;
  set_same = λ k v s. rw (eq_refl k) refl;
  set_other = set_entry_other;
  get_len_some = λ k s b h. ap found_length h;
  get_str_some = λ k s b h. ap found_bytes h;
}

abbrev pub blank : Session Entries
blank = record { store = λ k. none; opened = 0; closed = 0 }

get_wifi_credentials-set_wifi_credentials_example :
    let (done, after) = set_wifi_credentials memory (codes "home") (codes "secret") blank in
    let (found, (a, b)) = (get_wifi_credentials memory (zeros 64) (zeros 64) after).0 in
    (done ≡ true)
    × (found ≡ true)
    × (a ≡ codes "home" ++ 0 ∷ 0 ∷ drop (length (codes "home") + 2) (zeros 64))
    × (length a ≡ 64)
    × (b ≡ codes "secret" ++ 0 ∷ 0 ∷ drop (length (codes "secret") + 2) (zeros 64))
    × (length b ≡ 64)
get_wifi_credentials-set_wifi_credentials_example =
    get_wifi_credentials-set_wifi_credentials memory-Dependable (codes "home") (codes "secret")
      (zeros 64) (zeros 64) blank (omega arith) (omega arith)

get_params-set_params_example :
    ((set_params memory "device" (codes "door") blank).0 ≡ true)
    × ((get_params memory "device"
          (zeros 8)
          8
          (set_params memory "device" (codes "door") blank).1).0
        ≡ (true, codes "door" ++ zeros 4))
get_params-set_params_example =
    get_params-set_params memory-Dependable "device" (codes "door") (zeros 8) blank (omega arith)
      (omega arith)

abbrev calls : List Call
calls =
    Call.init_partition
    ∷ Call.set_credentials (codes "home") (codes "secret")
    ∷ Call.get_credentials (zeros 64) (zeros 64)
    ∷ Call.test_storage
    ∷ Call.test_credentials
    ∷ Call.get_param "device" (zeros 8) 8
    ∷ []

handles_closed_example :
    (run_all memory calls blank).1.opened + blank.closed
    ≡ blank.opened + (run_all memory calls blank).1.closed
handles_closed_example = handles_closed memory calls blank

get_wifi_credentials_room_example :
    let after =
      (get_wifi_credentials memory
        (zeros 5)
        (zeros 64)
        (set_wifi_credentials memory (codes "home") (codes "secret") blank).1).0 in
    (length (codes "home") + 2 ≤ length (zeros 5) → length after.1.0 ≡ length (zeros 5))
    × (length (codes "home") + 1 ≡ length (zeros 5) → length after.1.0 ≡ length (zeros 5) + 1)
get_wifi_credentials_room_example =
    get_wifi_credentials_room memory-Dependable (codes "home") (codes "secret") (zeros 5) (zeros 64)
      blank

abbrev started : Station
started = record { retry_num = 0; connects = 0 }

-- The service answers the third wait.
abbrev pub third_answers : ℕ → EspErr
third_answers zero = timeout
third_answers (suc zero) = timeout
third_answers _ = esp_ok

abbrev unset : Clock
unset = record { sntp = none; time_waits = 0; timezone = none }

time_sync_init-Synchronised_example :
    Synchronised 70 third_answers unset (time_sync_init 70 third_answers unset)
time_sync_init-Synchronised_example = time_sync_init-Synchronised 70 third_answers unset

-- Both headers hold the same text.
abbrev pub same_header : String → Bytes
same_header name = codes "home" ++ zeros 60
