-- ===== src/Nvs/Api.antt =====
-- The non-volatile storage library as components/nvs_storage uses it: its calls are the fields of a
-- record, over a state of its own; `Dependable` is the assumption that none of them fails.
use Prim.Native.String.{String}
use captive_portal_esp.Base.{
  ℕ, ◌+◌, ◌≡◌, ◌≢◌, Bool, false, Option, some, ◌++◌, ◌==◌, length, ◌∷◌, [], if◌then◌else◌,
}
use captive_portal_esp.Bytes.{Bytes}
use captive_portal_esp.Esp.{EspErr, esp_ok, other, is_ok}

-- ESP_ERR_NVS_NOT_FOUND, ESP_ERR_NVS_NO_FREE_PAGES and ESP_ERR_NVS_NEW_VERSION_FOUND
abbrev pub nvs_not_found : EspErr
nvs_not_found = other 0x1102

abbrev pub is_nvs_not_found : EspErr → Bool
is_nvs_not_found (other n) = n == 0x1102
is_nvs_not_found _ = false

abbrev pub is_no_free_pages : EspErr → Bool
is_no_free_pages (other n) = n == 0x110d
is_no_free_pages _ = false

abbrev pub is_new_version : EspErr → Bool
is_new_version (other n) = n == 0x1110
is_new_version _ = false

-- A name space of a partition. `get_len` is `nvs_get_str` with a NULL buffer; `get_str` gives the bytes
-- that `nvs_get_str` writes into a buffer said to have room for so many.
pub record Nvs (S : Type 0) : Type 0 where
  pub flash_init : S → EspErr × S
  pub flash_erase : S → EspErr × S
  pub nvs_open : S → EspErr × S
  pub set_str : String → Bytes → S → EspErr × S
  pub get_len : String → S → EspErr × ℕ
  pub get_str : String → ℕ → S → EspErr × Bytes
  -- An `int32_t` is the 32 bits that hold it.
  pub set_i32 : String → ℕ → S → EspErr × S
  pub get_i32 : String → S → EspErr × ℕ
  pub commit : S → EspErr × S
  pub nvs_close : S → S

-- No call fails, and a text is kept with its NUL under its key; starting, opening, committing and closing keep
-- what was set. The library's documentation promises this only for keys and texts within its limits, and while
-- the partition has space; it is assumed of all texts that are set.
pub record Dependable {S : Type 0} (nvs : Nvs S) : Type 0 where
  pub lookup : S → String → Option Bytes
  pub flash_init_ok : (s : S) → (nvs.flash_init s).0 ≡ esp_ok
  pub flash_init_keeps : (s : S) (k : String) → lookup (nvs.flash_init s).1 k ≡ lookup s k
  pub open_ok : (s : S) → (nvs.nvs_open s).0 ≡ esp_ok
  pub set_ok : (k : String) (v : Bytes) (s : S) → (nvs.set_str k v s).0 ≡ esp_ok
  pub commit_ok : (s : S) → (nvs.commit s).0 ≡ esp_ok
  pub open_keeps : (s : S) (k : String) → lookup (nvs.nvs_open s).1 k ≡ lookup s k
  pub commit_keeps : (s : S) (k : String) → lookup (nvs.commit s).1 k ≡ lookup s k
  pub close_keeps : (s : S) (k : String) → lookup (nvs.nvs_close s) k ≡ lookup s k
  pub set_same :
      (k : String) (v : Bytes) (s : S) → lookup (nvs.set_str k v s).1 k ≡ some (v ++ 0 ∷ [])
  pub set_other :
      (k j : String) (v : Bytes) (s : S) → k ≢ j → lookup (nvs.set_str k v s).1 j ≡ lookup s j
  pub get_len_some :
      (k : String) (s : S) (b : Bytes) → lookup s k ≡ some b → nvs.get_len k s ≡ (esp_ok, length b)
  pub get_str_some :
      (k : String) (s : S) (b : Bytes)
      → lookup s k ≡ some b
      → nvs.get_str k (length b) s ≡ (esp_ok, b)

-- The library's state, and the handles opened and closed so far.
pub record Session (S : Type 0) : Type 0 where
  pub store : S
  pub opened : ℕ
  pub closed : ℕ

abbrev pub count_open : Bool → ℕ → ℕ
count_open ok n = if ok then n + 1 else n

abbrev pub N : Type 0 → Type 0 → Type 0
N S A = Session S → A × Session S

module _ {S : Type 0} where
  abbrev pub pure : {A : Type 0} → A → N S A
  pure a w = (a, w)

  infixl 5 ◌>>=◌ ◌>>◌
  abbrev pub ◌>>=◌ : {A B : Type 0} → N S A → (A → N S B) → N S B
  ◌>>=◌ m f w = let (a, w') = m w in f a w'

  abbrev pub ◌>>◌ : {A B : Type 0} → N S A → N S B → N S B
  m >> k = m >>= λ _. k

  -- A call that may change the store, and one that reads it.
  abbrev pub call : {A : Type 0} → (S → A × S) → N S A
  call f w = let (a, s) = f w.store in (a, record w { store = s })

  abbrev pub read : {A : Type 0} → (S → A) → N S A
  read f w = (f w.store, w)

  module _ (nvs : Nvs S) where
    -- `nvs_open`: a handle is there if it succeeds.
    unfoldable pub open_handle : N S Bool
    open_handle w =
        let (err, s) = nvs.nvs_open w.store in
        (is_ok err, record w { store = s; opened = count_open (is_ok err) w.opened })

    unfoldable pub close_handle : N S (Unit {0})
    close_handle w = (tt, record w { store = nvs.nvs_close w.store; closed = w.closed + 1 })

    -- `nvs_close(my_handle); return result;`
    abbrev pub close_and_return : {A : Type 0} → A → N S A
    close_and_return a = close_handle >> pure a
