-- ===== src/Wifi/Configured.antt =====
-- What components/app_wifi/app_wifi.c configures for the credentials that components/nvs_storage keeps.
use Prim.Native.String.{String}
use mathlib.Core.List.{append_assoc, append-nil}
use captive_portal_esp.Base.{
  ◌+◌, ◌≡◌, refl, ◌∙◌, true, false, ◌⊎◌, Bool-cases, inl, inr, if◌then◌else◌, some, [], ◌∷◌, ◌++◌,
  length, take, drop, take-append, take_all, ap, ◌-◌, ◌≤◌, arith,
}
use captive_portal_esp.Bytes.{Bytes, c_string}
use captive_portal_esp.Text.{zeros}
use captive_portal_esp.CString.{IsText, c_string-IsText, c_string-append}
use captive_portal_esp.Esp.{EspErr, esp_ok, is_ok}
use captive_portal_esp.Nvs.Api.{Nvs, Dependable, Session, nvs_not_found, open_handle, close_handle}
use captive_portal_esp.Nvs.Credentials.{get_wifi_credentials, get_text}
use captive_portal_esp.Nvs.Keeps.{stored, filled}
use captive_portal_esp.Nvs.Room.{length-filled}
use captive_portal_esp.Server.WifiConnect.{
  wifi_connect_handler, get_wifi_credentials-wifi_connect_handler,
}
use captive_portal_esp.Wifi.Scan.{Scanner, wpa2_psk, wifi_scan_networks}
use captive_portal_esp.Wifi.Config.{StaConfig, WifiOptions, WifiCheck, sta_config, wifi_init_sta}

c_string-stored : (text rest : Bytes) → IsText text → c_string (stored text ++ rest) ≡ text
c_string-stored text rest h =
    let nul : Bytes = 0 ∷ [] in
    rw (append_assoc text nul rest) (c_string-append text (nul ++ rest) h ∙ append-nil text)

pub c_string-filled : (buffer text : Bytes) → IsText text → c_string (filled buffer text) ≡ text
c_string-filled buffer text h =
    let st : Bytes = stored text in
    let behind : Bytes = drop (0 + length st) buffer in
    let kept : take (length st) (st ++ behind) ≡ st = take-append (length st) st behind refl in
    rw kept (c_string-stored text _ h)

sta_config-filled :
    (a b ssid password : Bytes)
    → sta_config (filled a (c_string ssid)) (filled b (c_string password))
      ≡ sta_config ssid password
sta_config-filled a b ssid password =
    rw
      (
        c_string-filled a (c_string ssid) (c_string-IsText ssid),
        c_string-filled b (c_string password) (c_string-IsText password),
      )
      refl

-- What the driver is to be given: the name's first 32 bytes and the password, with zeros behind them in arrays
-- of 32 and 64 bytes, and WPA2 as the least that an access point must offer.
abbrev pub station_for : Bytes → Bytes → StaConfig
station_for ssid password = record {
  ssid = take 32 ssid ++ zeros (32 - length ssid);
  password = password ++ zeros (64 - length password);
  threshold = wpa2_psk;
}

pub sta_config-station_for :
    (ssid password : Bytes)
    → length (c_string password) ≤ 64
    → sta_config ssid password ≡ station_for (c_string ssid) (c_string password)
sta_config-station_for ssid password h = rw (take_all 64 (c_string password) h) refl

-- The store cannot be opened, or holds no credentials.
abbrev pub Missing : {S : Type 0} → Nvs S → S → Type 0
Missing nvs s =
    let (err, s') = nvs.nvs_open s in
    (is_ok err ≡ false)
    ⊎ ((nvs.get_len "_ssid" s' ≡ (nvs_not_found, 0))
        × (nvs.get_len "_password" s' ≡ (nvs_not_found, 0)))

get_wifi_credentials-Missing :
    {S : Type 0} (nvs : Nvs S) (a b : Bytes) (w : Session S)
    → Missing nvs w.store
    → (get_wifi_credentials nvs a b w).0 ≡ (false, (a, b))
unfolding get_wifi_credentials get_text open_handle close_handle
get_wifi_credentials-Missing nvs a b w (inl shut) = rw shut refl
get_wifi_credentials-Missing nvs a b w (inr (no_ssid, no_password)) =
    elim (Bool-cases (is_ok (nvs.nvs_open w.store).0)) [
      | inl opened ↦ rw (opened, no_ssid, no_password) refl
      | inr shut ↦ rw shut refl
    ]

module _ {S : Type 0} (nvs : Nvs S) (options : WifiOptions) (check : WifiCheck → EspErr)
    (scanner : Scanner) (checked : (c : WifiCheck) → check c ≡ esp_ok) where
  pub wifi_init_sta_lem :
      (w : Session S)
      → (let (found, (ssid, password)) = (get_wifi_credentials nvs (zeros 64) (zeros 64) w).0 in
          (wifi_init_sta nvs options check scanner w).0
          ≡ some (
            (if found
                then sta_config ssid password
                else sta_config options.sta_ssid options.sta_password),
            (wifi_scan_networks scanner options.sta_ssid).0,
          ))
  unfolding wifi_init_sta
  wifi_init_sta_lem w =
      rw
        (
          checked WifiCheck.register_any_id,
          checked WifiCheck.register_got_ip,
          checked WifiCheck.set_config_sta,
        )
        refl

  wifi_init_sta-after :
      (doc : Dependable nvs) (header : String → Bytes) (w : Session S)
      → (wifi_init_sta nvs options check scanner (wifi_connect_handler nvs true header w).1).0
        ≡ some (
          sta_config (header "my-connect-ssid") (header "my-connect-pswd"),
          (wifi_scan_networks scanner options.sta_ssid).0,
        )
  wifi_init_sta-after doc header w =
      let after = (wifi_connect_handler nvs true header w).1 in
      let back = get_wifi_credentials-wifi_connect_handler nvs header w doc (zeros 64) (zeros 64) in
      wifi_init_sta_lem after
      ∙ rw
          (
            back,
            sta_config-filled (zeros 64) (zeros 64) (header "my-connect-ssid")
                (header "my-connect-pswd"),
          )
          refl

  -- Where the driver's calls succeed, no call of the storage library fails and it keeps what is
  -- set: after a request whose headers have a network's name and a password of at most 62 bytes
  -- each, the station is configured with them, the name cut to 32 bytes, zeros behind both, and
  -- WPA2; neither array of 64 bytes that they are read into is overrun.
  pub wifi_init_sta-wifi_connect_handler :
      (doc : Dependable nvs) (header : String → Bytes) (w : Session S)
      → length (c_string (header "my-connect-ssid")) ≤ 62
      → length (c_string (header "my-connect-pswd")) ≤ 62
      → (let ssid = c_string (header "my-connect-ssid") in
          let password = c_string (header "my-connect-pswd") in
          let after = (wifi_connect_handler nvs true header w).1 in
          let (a, b) = (get_wifi_credentials nvs (zeros 64) (zeros 64) after).0.1 in
          ((wifi_init_sta nvs options check scanner after).0
            ≡ some (station_for ssid password, (wifi_scan_networks scanner options.sta_ssid).0))
          × (length a ≡ 64)
          × (length b ≡ 64))
  wifi_init_sta-wifi_connect_handler doc header w room_a room_b =
      let back = get_wifi_credentials-wifi_connect_handler nvs header w doc (zeros 64) (zeros 64) in
      let ssid : Bytes = header "my-connect-ssid" in
      let password : Bytes = header "my-connect-pswd" in
      (
        wifi_init_sta-after doc header w
            ∙ ap (λ c. some (c, (wifi_scan_networks scanner options.sta_ssid).0))
                (sta_config-station_for ssid password (omega (arith, room_b))),
        ap (λ x. length x.1.0) back
            ∙ (length-filled (zeros 64) (c_string ssid)).0 (omega (arith, room_a)),
        ap (λ x. length x.1.1) back
            ∙ (length-filled (zeros 64) (c_string password)).0 (omega (arith, room_b)),
      )

  -- Where the storage cannot be opened or holds no credentials, and the driver's calls succeed,
  -- the station is configured with those of the build.
  pub wifi_init_sta_falls_back :
      (w : Session S)
      → Missing nvs w.store
      → (wifi_init_sta nvs options check scanner w).0
        ≡ some (
          sta_config options.sta_ssid options.sta_password,
          (wifi_scan_networks scanner options.sta_ssid).0,
        )
  wifi_init_sta_falls_back w missing =
      wifi_init_sta_lem w
      ∙ rw (get_wifi_credentials-Missing nvs (zeros 64) (zeros 64) w missing) refl
