-- ===== src/Main.antt =====
-- main/main.c: `app_main`, from the start to the main loop, over the components.
pub mod Boot
pub mod Cards
pub mod Started
use captive_portal_esp.Base.{ℕ, Bool, true, false, not, Option, none, some, if◌then◌else◌}
use captive_portal_esp.Esp.{EspErr, is_ok, Env, World, M}
use captive_portal_esp.Storage.Mount
use captive_portal_esp.Rfid.Setup
use captive_portal_esp.Nvs.Api.{Nvs, N, Session}
use captive_portal_esp.Nvs.Credentials
use captive_portal_esp.Nvs.Params.{partition_init}
use captive_portal_esp.Wifi.Scan.{Scanner, ScanLog}
use captive_portal_esp.Wifi.Config.{
  WifiOptions, WifiCheck, StaConfig, ApConfig, wifi_init_sta, wifi_init_softap,
}
use captive_portal_esp.Server.Routes.{Httpd, start_webserver}
use captive_portal_esp.TimeSync.{Clock, time_sync_init}

-- The calls of `app_main` under an ESP_ERROR_CHECK
pub data MainCheck : Type 0 where
  netif_init event_loop_create_default wifi_init wifi_set_mode wifi_start : MainCheck

-- What the platform and the libraries answer. The scanner is told whether Wi-Fi was started.
pub record Board (S P H : Type 0) : Type 0 where
  pub env : Env
  pub nvs : Nvs S
  pub params : Nvs P
  pub httpd : Httpd H
  pub options : WifiOptions
  pub main_check : MainCheck → EspErr
  pub wifi_check : WifiCheck → EspErr
  pub scanner : Bool → Scanner
  pub queue_created : Bool
  pub dns_task_created : Bool
  pub tm_year : ℕ
  pub sync_wait : ℕ → EspErr

-- What the start leaves: the components' states, and what the drivers and tasks were given.
pub record Machine (S P H : Type 0) : Type 0 where
  pub world : World
  pub storage : Session S
  pub params : Session P
  pub queue : Bool
  pub sta : Option StaConfig
  pub scan_log : Option ScanLog
  pub ap : Option ApConfig
  pub server : Option H
  pub dns : Bool
  pub wifi_started : Bool
  pub clock : Clock

-- `none` where an ESP_ERROR_CHECK aborts, which restarts the chip.
abbrev pub Start : Type 0 → Type 0 → Type 0
Start X A = X → Option (A × X)

infixl 5 ◌>>=◌ ◌>>◌
abbrev pub ◌>>=◌ : {X A B : Type 0} → Start X A → (A → Start X B) → Start X B
◌>>=◌ m f w = elim (m w) [ none ↦ none | some (a, w') ↦ f a w' ]

abbrev pub ◌>>◌ : {X A B : Type 0} → Start X A → Start X B → Start X B
m >> k = m >>= λ _. k

abbrev pub or_abort : {X A : Type 0} → Option A → Start X A
or_abort none m = none
or_abort (some a) m = some (a, m)

module _ {S P H : Type 0} where
  abbrev pub on_world : {A : Type 0} → M A → Start (Machine S P H) A
  on_world f m = let (a, w) = f m.world in some (a, record m { world = w })

  abbrev pub on_storage : {A : Type 0} → N S (Option A) → Start (Machine S P H) A
  on_storage f m = let (a, s) = f m.storage in or_abort a (record m { storage = s })

  abbrev pub on_params : {A : Type 0} → N P (Option A) → Start (Machine S P H) A
  on_params f m = let (a, s) = f m.params in or_abort a (record m { params = s })

  module _ (b : Board S P H) where
    abbrev pub checked : MainCheck → Start (Machine S P H) (Unit {0})
    checked c m = if is_ok (b.main_check c) then some (tt, m) else none

    -- `app_local_server_init`
    unfoldable pub app_local_server_init : Start (Machine S P H) Bool
    app_local_server_init m = some (true, record m { queue = b.queue_created })

    -- `sta_wifi_init`
    unfoldable pub sta_wifi_init : Start (Machine S P H) Bool
    sta_wifi_init = do
      (config, scan_log) ← on_storage (wifi_init_sta b.nvs b.options b.wifi_check (b.scanner false))
      λ m. some (true, record m { sta = some config; scan_log = some scan_log })

    -- `softap_init`
    unfoldable pub softap_init : Start (Machine S P H) Bool
    softap_init = do
      config ← or_abort (wifi_init_softap b.options b.wifi_check)
      λ m. some (true, record m { ap = some config })

    -- `app_local_server_start`
    unfoldable pub app_local_server_start : Start (Machine S P H) Bool
    app_local_server_start m =
        some (true, record m { server = start_webserver b.httpd; dns = b.dns_task_created })

    unfoldable pub app_main : Start (Machine S P H) (Unit {0})
    unfolding app_local_server_init sta_wifi_init softap_init app_local_server_start
    app_main = do
      on_storage (Credentials.init b.nvs)
      on_params (partition_init b.params)
      on_world (Mount.init b.env)
      on_world (Setup.init b.env)
      on_world (Setup.load_defaults b.env)
      checked netif_init
      checked event_loop_create_default
      app_local_server_init
      checked wifi_init
      checked wifi_set_mode
      sta_wifi_init
      softap_init
      app_local_server_start
      checked wifi_start
      λ m. some (
        tt,
        record m { wifi_started = true; clock = time_sync_init b.tm_year b.sync_wait m.clock },
      )
