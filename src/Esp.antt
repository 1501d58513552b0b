-- ===== src/Esp.antt =====
-- What the components share: `esp_err_t`, the outcomes that the platform decides (FreeRTOS, the
-- SPIFFS driver, the C library's input and output), the state of the device, and the monad of C
-- functions over that state.
use Prim.Native.String.{String}
use text.Mathlib.Text.{◌==◌ as str_eq}
use captive_portal_esp.Base.{ℕ, ◌+◌, ◌≡◌, Bool, true, Option, if◌then◌else◌, tabulate}
use captive_portal_esp.Bytes.{Bytes}

-- `esp_err_t`: the codes that the program names, and any other by its number.
pub data EspErr : Type 0 where
  esp_ok esp_fail no_mem invalid_arg invalid_state not_found not_supported timeout : EspErr
  other : ℕ → EspErr

abbrev pub is_ok : EspErr → Bool
is_ok esp_ok = true
is_ok _ = Bool.false

abbrev pub is_invalid_state : EspErr → Bool
is_invalid_state invalid_state = true
is_invalid_state _ = Bool.false

-- How each call of the platform ends. The first argument is the number of calls made before it,
-- so that two calls may end differently.
pub record Env : Type 0 where
  pub semaphore_created : ℕ → Bool
  pub semaphore_taken : ℕ → Bool
  pub malloc_ok : ℕ → Bool
  pub fopen_ok : ℕ → Bool
  -- of the bytes that a call asks for, how many are read, accepted, and kept by `fclose`
  pub fread_count : ℕ → ℕ → ℕ
  pub fwrite_count : ℕ → ℕ → ℕ
  pub flush_count : ℕ → ℕ → ℕ
  pub unlink_ok : ℕ → Bool
  pub rename_ok : ℕ → Bool
  pub opendir_ok : ℕ → Bool
  pub spiffs_register : ℕ → EspErr
  pub spiffs_unregister : ℕ → EspErr
  pub spiffs_check : ℕ → EspErr
  pub spiffs_info : ℕ → EspErr
  pub spiffs_format : ℕ → EspErr
  -- the files after a call of the driver that may mount, mend or format
  pub driver_files : ℕ → (String → Option Bytes) → String → Option Bytes
  pub spiffs_total : ℕ → ℕ
  pub spiffs_used : ℕ → ℕ
  -- `time(NULL)`
  pub time : ℕ → ℕ
  -- byte `i` of memory that nobody has written
  pub garbage : ℕ → ℕ → ℕ

-- Nothing fails: every call does all that it was asked to do.
pub record Reliable (env : Env) : Type 0 where
  pub semaphore_created : (t : ℕ) → env.semaphore_created t ≡ true
  pub semaphore_taken : (t : ℕ) → env.semaphore_taken t ≡ true
  pub malloc_ok : (t : ℕ) → env.malloc_ok t ≡ true
  pub fopen_ok : (t : ℕ) → env.fopen_ok t ≡ true
  pub fread_count : (t n : ℕ) → env.fread_count t n ≡ n
  pub fwrite_count : (t n : ℕ) → env.fwrite_count t n ≡ n
  pub flush_count : (t n : ℕ) → env.flush_count t n ≡ n
  pub unlink_ok : (t : ℕ) → env.unlink_ok t ≡ true

-- Calls may fail, but what a file call begins it ends: reads and writes are never short.
pub record Whole (env : Env) : Type 0 where
  pub fread_count : (t n : ℕ) → env.fread_count t n ≡ n
  pub fwrite_count : (t n : ℕ) → env.fwrite_count t n ≡ n
  pub flush_count : (t n : ℕ) → env.flush_count t n ≡ n

abbrev pub Reliable-Whole : {env : Env} → Reliable env → Whole env
Reliable-Whole rel = record {
  fread_count = rel.fread_count;
  fwrite_count = rel.fwrite_count;
  flush_count = rel.flush_count;
}

-- Calls of `xSemaphoreTake` that succeeded, of `xSemaphoreGive`, of `malloc` that succeeded, and of
-- `free`.
pub record Usage : Type 0 where
  pub takes : ℕ
  pub gives : ℕ
  pub mallocs : ℕ
  pub frees : ℕ

pub record World : Type 0 where
  pub files : String → Option Bytes
  -- the platform calls made so far
  pub tick : ℕ
  pub usage : Usage
  -- `spiffs_initialized` and `rfid_mutex != NULL`
  pub spiffs_initialized : Bool
  pub rfid_mutex : Bool

abbrev pub M : Type 0 → Type 0
M A = World → A × World

abbrev pub pure : {A : Type 0} → A → M A
pure a w = (a, w)

infixl 5 ◌>>=◌ ◌>>◌
abbrev pub ◌>>=◌ : {A B : Type 0} → M A → (A → M B) → M B
◌>>=◌ m f w = let (a, w') = m w in f a w'

abbrev pub ◌>>◌ : {A B : Type 0} → M A → M B → M B
m >> k = m >>= λ _. k

abbrev pub gets : {A : Type 0} → (World → A) → M A
gets f w = (f w, w)

-- A platform call, whose outcome is `f` at the number of calls made before.
abbrev pub ask : {A : Type 0} → (ℕ → A) → M A
ask f w = (f w.tick, record w { tick = w.tick + 1 })

abbrev pub count_take : Bool → Usage → Usage
count_take taken u = if taken then record u { takes = u.takes + 1 } else u

abbrev pub count_malloc : Bool → Usage → Usage
count_malloc got u = if got then record u { mallocs = u.mallocs + 1 } else u

abbrev pub update : (String → Option Bytes) → String → Option Bytes → String → Option Bytes
update files name content other_name = if str_eq name other_name then content else files other_name

module _ (env : Env) where
  -- `xSemaphoreTake(rfid_mutex, portMAX_DELAY) == pdTRUE`
  unfoldable pub take_mutex : M Bool
  take_mutex w =
      let taken = env.semaphore_taken w.tick in
      (taken, record w { tick = w.tick + 1; usage = count_take taken w.usage })

  -- `malloc(...) != NULL`
  unfoldable pub malloc : M Bool
  malloc w =
      let got = env.malloc_ok w.tick in
      (got, record w { tick = w.tick + 1; usage = count_malloc got w.usage })

  -- `n` bytes of a local variable or a fresh block, before the first write
  unfoldable pub uninitialised : ℕ → M Bytes
  uninitialised n w = (tabulate n (env.garbage w.tick) 0, record w { tick = w.tick + 1 })

-- `xSemaphoreGive(rfid_mutex)`
unfoldable pub give_mutex : M (Unit {0})
give_mutex w = (tt, record w { usage = record w.usage { gives = w.usage.gives + 1 } })

-- `free(...)`
unfoldable pub free : M (Unit {0})
free w = (tt, record w { usage = record w.usage { frees = w.usage.frees + 1 } })
