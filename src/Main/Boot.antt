-- ===== src/Main/Boot.antt =====
-- What the start of main/main.c leaves where nothing fails.
use captive_portal_esp.Base.{◌≡◌, refl, ap, ◌∙◌, true, false, Option, none, some, if◌then◌else◌}
use captive_portal_esp.Text.{zeros}
use captive_portal_esp.Esp.{esp_ok, M}
use captive_portal_esp.Storage.Mount
use captive_portal_esp.Rfid.Setup
use captive_portal_esp.Rfid.Setup.{default_cards}
use captive_portal_esp.Nvs.Api.{Dependable, Session, N}
use captive_portal_esp.Nvs.Credentials
use captive_portal_esp.Nvs.Credentials.{get_wifi_credentials}
use captive_portal_esp.Nvs.Params.{partition_init}
use captive_portal_esp.Wifi.Scan.{wifi_scan_networks}
use captive_portal_esp.Wifi.Config.{
  WifiCheck, StaConfig, sta_config, wifi_init_sta, wifi_init_softap,
}
use captive_portal_esp.Wifi.Configured.{wifi_init_sta_lem}
use captive_portal_esp.Server.Routes.{start_webserver}
use captive_portal_esp.TimeSync.{time_sync_init}
use captive_portal_esp.Main.{
  MainCheck, Board, Machine, Start, ◌>>=◌, ◌>>◌, or_abort, on_storage, on_params, on_world, checked,
  app_main, app_local_server_init, sta_wifi_init, softap_init, app_local_server_start,
}

-- No call under an ESP_ERROR_CHECK fails.
pub record Passes {S P H : Type 0} (b : Board S P H) : Type 0 where
  pub main : (c : MainCheck) → b.main_check c ≡ esp_ok
  pub wifi : (c : WifiCheck) → b.wifi_check c ≡ esp_ok
  pub storage : Dependable b.nvs
  pub params : Dependable b.params

-- A start that does not abort, from `m`, with its result.
pub record Ends {X A : Type 0} (f : Start X A) (m : X) (a : A) (m' : X) : Type 0 where
  pub path : f m ≡ some (a, m')

Ends-bind :
    {X A B : Type 0} (f : Start X A) (k : A → Start X B) {m m' m'' : X} {a : A} {c : B}
    → Ends f m a m'
    → Ends (k a) m' c m''
    → Ends (f >>= k) m c m''
Ends-bind f k e rest = record {
  path = ap (λ o. elim o [ none ↦ none | some (a, w) ↦ k a w ]) e.path ∙ rest.path;
}

Ends-then :
    {X A B : Type 0} (f : Start X A) (k : Start X B) {m m' m'' : X} {a : A} {c : B}
    → Ends f m a m'
    → Ends k m' c m''
    → Ends (f >> k) m c m''
Ends-then f k = Ends-bind f (λ _. k)

module _ {S P H : Type 0} {b : Board S P H} (ok : Passes b) where
  pub storage_init :
      (s : Session S)
      → Credentials.init b.nvs s ≡ (some tt, record s { store = (b.nvs.flash_init s.store).1 })
  unfolding Credentials.init
  storage_init s = rw (ok.storage.flash_init_ok s.store) refl

  params_init : (s : Session P) → (partition_init b.params s).0 ≡ some tt
  unfolding partition_init
  params_init s = rw (ok.params.flash_init_ok s.store) refl

  -- The credentials in the storage, or the build's.
  abbrev pub chosen : Session S → StaConfig
  chosen s =
      let (found, (ssid, password)) = (get_wifi_credentials b.nvs (zeros 64) (zeros 64) s).0 in
      if found
      then sta_config ssid password
      else sta_config b.options.sta_ssid b.options.sta_password

  -- What the start leaves of a machine.
  abbrev pub booted : Machine S P H → Machine S P H
  booted m =
      let s = (Credentials.init b.nvs m.storage).1 in
      let w1 = (Mount.init b.env m.world).1 in
      let w2 = (Setup.init b.env w1).1 in
      record {
        world = (Setup.load_defaults b.env w2).1;
        storage = (wifi_init_sta b.nvs b.options b.wifi_check (b.scanner false) s).1;
        params = (partition_init b.params m.params).1;
        queue = b.queue_created;
        sta = some (chosen s);
        scan_log = some (wifi_scan_networks (b.scanner false) b.options.sta_ssid).0;
        ap = wifi_init_softap b.options b.wifi_check;
        server = start_webserver b.httpd;
        dns = b.dns_task_created;
        wifi_started = true;
        clock = time_sync_init b.tm_year b.sync_wait m.clock;
      }

  Ends-storage :
      {A : Type 0} (f : N S (Option A)) (m : Machine S P H) (a : A)
      → (f m.storage).0 ≡ some a
      → Ends (on_storage f) m a (record m { storage = (f m.storage).1 })
  Ends-storage f m a e = record {
    path = ap (λ o. or_abort o (record m { storage = (f m.storage).1 })) e;
  }

  Ends-params :
      {A : Type 0} (f : N P (Option A)) (m : Machine S P H) (a : A)
      → (f m.params).0 ≡ some a
      → Ends (on_params f) m a (record m { params = (f m.params).1 })
  Ends-params f m a e = record {
    path = ap (λ o. or_abort o (record m { params = (f m.params).1 })) e;
  }

  Ends-world :
      {A : Type 0} (f : M A) (m : Machine S P H)
      → Ends (on_world f) m (f m.world).0 (record m { world = (f m.world).1 })
  Ends-world f m = record { path = refl }

  Ends-checked : (c : MainCheck) (m : Machine S P H) → Ends (checked b c) m tt m
  Ends-checked c m = record { path = rw (ok.main c) refl }

  sta_wifi_init-Ends :
      (m : Machine S P H)
      → Ends (sta_wifi_init b) m true (record m {
        storage = (wifi_init_sta b.nvs b.options b.wifi_check (b.scanner false) m.storage).1;
        sta = some (chosen m.storage);
        scan_log = some (wifi_scan_networks (b.scanner false) b.options.sta_ssid).0;
      })
  unfolding sta_wifi_init
  sta_wifi_init-Ends m =
      Ends-bind (on_storage (wifi_init_sta b.nvs b.options b.wifi_check (b.scanner false))) _
        (Ends-storage _ m _
          (wifi_init_sta_lem b.nvs b.options b.wifi_check (b.scanner false) ok.wifi m.storage))
        (record { path = refl })

  softap_init-Ends :
      (m : Machine S P H)
      → Ends (softap_init b) m true (record m { ap = wifi_init_softap b.options b.wifi_check })
  unfolding softap_init wifi_init_softap
  softap_init-Ends m = record {
    path = rw (ok.wifi WifiCheck.register_ap_events, ok.wifi WifiCheck.set_config_ap) refl;
  }

  app_local_server_init-Ends :
      (m : Machine S P H)
      → Ends (app_local_server_init b) m true (record m { queue = b.queue_created })
  unfolding app_local_server_init
  app_local_server_init-Ends m = record { path = refl }

  app_local_server_start-Ends :
      (m : Machine S P H)
      → Ends
          (app_local_server_start b)
          m
          true
          (record m { server = start_webserver b.httpd; dns = b.dns_task_created })
  unfolding app_local_server_start
  app_local_server_start-Ends m = record { path = refl }

  pub app_main-Ends : (m : Machine S P H) → Ends (app_main b) m tt (booted m)
  unfolding app_main
  app_main-Ends m =
      Ends-then _ _
        (Ends-storage (Credentials.init b.nvs) m tt (ap (λ x. x.0) (storage_init m.storage)))
        (Ends-then _ _ (Ends-params (partition_init b.params) _ tt (params_init _)) (
          Ends-then _ _ (Ends-world (Mount.init b.env) _) (
            Ends-then _ _ (Ends-world (Setup.init b.env) _) (
              Ends-then _ _ (Ends-world (Setup.load_defaults b.env) _) (
                Ends-then _ _ (Ends-checked MainCheck.netif_init _) (
                  Ends-then _ _ (Ends-checked MainCheck.event_loop_create_default _) (
                    Ends-then (app_local_server_init b) _ (app_local_server_init-Ends _) (
                      Ends-then _ _ (Ends-checked MainCheck.wifi_init _) (
                        Ends-then _ _ (Ends-checked MainCheck.wifi_set_mode _) (
                          Ends-then _ _ (sta_wifi_init-Ends _) (
                            Ends-then _ _ (softap_init-Ends _) (
                              Ends-then (app_local_server_start b) _ (app_local_server_start-Ends _)
                                (Ends-then _ _ (Ends-checked MainCheck.wifi_start _)
                                  (record { path = refl }))))))))))))))
