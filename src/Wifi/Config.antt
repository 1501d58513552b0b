-- ===== src/Wifi/Config.antt =====
-- `wifi_init_sta` and `wifi_init_softap` of components/app_wifi/app_wifi.c: how the driver is configured. The
-- results of the driver's calls are arguments.
use captive_portal_esp.Base.{
  ℕ, ◌-◌, not, Option, none, some, ◌++◌, ◌==◌, if◌then◌else◌, length, take,
}
use captive_portal_esp.Bytes.{Bytes, c_string}
use captive_portal_esp.Text.{zeros}
use captive_portal_esp.Esp.{EspErr, is_ok}
use captive_portal_esp.Nvs.Api.{Nvs, N, pure, ◌>>=◌}
use captive_portal_esp.Nvs.Credentials.{get_wifi_credentials}
use captive_portal_esp.Wifi.Scan.{
  Scanner, AuthMode, auth_open, wpa2_psk, wpa_wpa2_psk, ScanLog, wifi_scan_networks,
}

-- The build's configuration: CONFIG_ESP_WIFI_SSID and so on
pub record WifiOptions : Type 0 where
  pub sta_ssid : Bytes
  pub sta_password : Bytes
  pub ap_ssid : Bytes
  pub max_connection : ℕ

-- `wifi_config.sta`, the fields that the function sets
pub record StaConfig : Type 0 where
  pub ssid : Bytes
  pub password : Bytes
  pub threshold : AuthMode

-- `wifi_config.ap`
pub record ApConfig : Type 0 where
  pub ssid : Bytes
  pub ssid_len : ℕ
  pub password : Bytes
  pub max_connection : ℕ
  pub authmode : AuthMode

-- The calls under an ESP_ERROR_CHECK
pub data WifiCheck : Type 0 where
  register_any_id register_got_ip set_config_sta register_ap_events set_config_ap : WifiCheck

-- `strncpy(array, source, n)` for an array of `n` bytes
abbrev pub strncpy : ℕ → Bytes → Bytes
strncpy n source = take n (c_string source) ++ zeros (n - length (c_string source))

abbrev pub sta_config : Bytes → Bytes → StaConfig
sta_config ssid password = record {
  ssid = strncpy 32 ssid;
  password = strncpy 64 password;
  threshold = wpa2_psk;
}

module _ {S : Type 0} (nvs : Nvs S) (options : WifiOptions) (check : WifiCheck → EspErr) where
  -- The configuration that the driver received, and the log of the scan behind it; `none` where an
  -- ESP_ERROR_CHECK aborts. Credentials of more than 62 bytes run over the arrays of 64 bytes, and what this
  -- does to the other array is not modelled.
  unfoldable pub wifi_init_sta : Scanner → N S (Option (StaConfig × ScanLog))
  wifi_init_sta scanner =
      if not (is_ok (check register_any_id))
      then pure none
      else if not (is_ok (check register_got_ip))
      then pure none
      else do
        (found, (ssid, password)) ← get_wifi_credentials nvs (zeros 64) (zeros 64)
        let config =
            if found
            then sta_config ssid password
            else sta_config options.sta_ssid options.sta_password
        if not (is_ok (check set_config_sta))
            then pure none
            else pure (some (config, (wifi_scan_networks scanner options.sta_ssid).0))

-- The password of the access point is that of the station, EXAMPLE_ESP_WIFI_PASS.
unfoldable pub wifi_init_softap : WifiOptions → (WifiCheck → EspErr) → Option ApConfig
wifi_init_softap options check =
    if not (is_ok (check register_ap_events))
    then none
    else if not (is_ok (check set_config_ap))
    then none
    else some (record {
      ssid = strncpy 32 options.ap_ssid;
      ssid_len = length (c_string options.ap_ssid);
      password = strncpy 64 options.sta_password;
      max_connection = options.max_connection;
      authmode = if length (c_string options.sta_password) == 0 then auth_open else wpa_wpa2_psk;
    })
