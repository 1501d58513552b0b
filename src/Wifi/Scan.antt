-- ===== src/Wifi/Scan.antt =====
-- `wifi_scan_networks` of components/app_wifi/app_wifi.c. What the driver answers is an argument, and the result
-- is what the function writes to the log.
use captive_portal_esp.Base.{
  ℕ, ◌+◌, Bool, true, false, not, ◌&&◌, ◌||◌, List, [], ◌∷◌, ◌++◌, ◌==◌, if◌then◌else◌,
}
use captive_portal_esp.Bytes.{Bytes, c_string, codes}
use captive_portal_esp.Esp.{EspErr, is_ok}

-- `wifi_auth_mode_t`, the modes that the switch names
pub data AuthMode : Type 0 where
  auth_open wep wpa_psk wpa2_psk wpa_wpa2_psk wpa2_enterprise wpa3_psk wpa2_wpa3_psk : AuthMode
  other_mode : ℕ → AuthMode

abbrev pub auth_mode_str : AuthMode → Bytes
auth_mode_str auth_open = codes "OPEN"
auth_mode_str wep = codes "WEP"
auth_mode_str wpa_psk = codes "WPA_PSK"
auth_mode_str wpa2_psk = codes "WPA2_PSK"
auth_mode_str wpa_wpa2_psk = codes "WPA_WPA2_PSK"
auth_mode_str wpa2_enterprise = codes "WPA2_ENTERPRISE"
auth_mode_str wpa3_psk = codes "WPA3_PSK"
auth_mode_str wpa2_wpa3_psk = codes "WPA2_WPA3_PSK"
auth_mode_str (other_mode n) = codes "UNKNOWN"

-- ESP_WIFI_SCAN_AUTH_MODE_THRESHOLD, which the configuration sets to WPA2
abbrev pub is_threshold : AuthMode → Bool
is_threshold wpa2_psk = true
is_threshold _ = false

-- The fields of `wifi_ap_record_t` that are used; `ssid` is an array of 33 bytes.
pub record ApRecord : Type 0 where
  pub ssid : Bytes
  pub authmode : AuthMode

-- `get_ap_records` is told for how many records there is room.
pub record Scanner : Type 0 where
  pub scan_start : EspErr
  pub ap_num : ℕ
  pub malloc_ok : Bool
  pub get_ap_records : ℕ → List ApRecord

abbrev pub same_bytes : Bytes → Bytes → Bool
same_bytes [] [] = true
same_bytes (c ∷ cs) (d ∷ ds) = c == d && same_bytes cs ds
same_bytes _ _ = false

-- `strcmp(a, b) == 0`
abbrev pub same_text : Bytes → Bytes → Bool
same_text a b = same_bytes (c_string a) (c_string b)

-- What the log says: the networks with their modes, whether the configured one is there, and how many
-- records of that name do not have the configured mode.
pub record Networks : Type 0 where
  pub listed : List (Bytes × Bytes)
  pub target_found : Bool
  pub mismatches : ℕ

abbrev pub with_record : Bytes → ApRecord → Networks → Networks
with_record target ap log = record {
  listed = log.listed ++ (c_string ap.ssid, auth_mode_str ap.authmode) ∷ [];
  target_found = same_text ap.ssid target || log.target_found;
  mismatches =
      if same_text ap.ssid target && not (is_threshold ap.authmode)
      then log.mismatches + 1
      else log.mismatches;
}

unfoldable pub list_records : Bytes → List ApRecord → Networks → Networks
list_records target [] log = log
list_records target (ap ∷ aps) log = list_records target aps (with_record target ap log)

pub data ScanLog : Type 0 where
  scan_failed : EspErr → ScanLog
  no_access_points no_memory : ScanLog
  scanned : Networks → ScanLog

-- The log, and the blocks allocated and freed.
unfoldable pub wifi_scan_networks : Scanner → Bytes → ScanLog × (ℕ × ℕ)
wifi_scan_networks s target =
    if not (is_ok s.scan_start)
    then (scan_failed s.scan_start, (0, 0))
    else if s.ap_num == 0
    then (no_access_points, (0, 0))
    else if not s.malloc_ok
    then (no_memory, (0, 0))
    else (
      scanned (
          list_records target (s.get_ap_records s.ap_num)
            (record { listed = []; target_found = false; mismatches = 0 })),
      (1, 1),
    )
