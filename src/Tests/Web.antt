-- ===== src/Tests/Web.antt =====
-- The start, the table of handlers and the Wi-Fi configuration at concrete inputs.
use Prim.Native.String.{String}
use captive_portal_esp.Base.{
  ℕ, zero, suc, ◌+◌, ◌≤◌, ◌≡◌, refl, Bool, true, false, none, some, List, [], ◌∷◌, arith,
  if◌then◌else◌, inr, length,
}
use captive_portal_esp.Bytes.{codes}
use captive_portal_esp.Esp.{EspErr, esp_ok, esp_fail}
use captive_portal_esp.Storage.Mounted.{Mounts}
use captive_portal_esp.Nvs.Credentials.{get_wifi_credentials}
use captive_portal_esp.Text.{zeros}
use captive_portal_esp.Wifi.Scan.{Scanner, wifi_scan_networks}
use captive_portal_esp.Wifi.Config.{WifiOptions, wifi_init_sta}
use captive_portal_esp.Wifi.Configured.{station_for, wifi_init_sta-wifi_connect_handler}
use captive_portal_esp.Server.WifiConnect.{wifi_connect_handler}
use captive_portal_esp.Server.Routes
use captive_portal_esp.Server.Routes.{
  Httpd, UriHandler, Method, Handler, is_for, route, uri_handlers, start_webserver,
}
use captive_portal_esp.Server.Routes.Served.{start_webserver_serves}
use captive_portal_esp.TimeSync.{Clock}
use captive_portal_esp.Main.{Board, Machine, app_main}
use captive_portal_esp.Main.Boot.{Passes}
use captive_portal_esp.Main.Started.{Started, app_main_starts}
use captive_portal_esp.Tests.Device.{calm, calm-Reliable, fresh}
use captive_portal_esp.Tests.Store.{
  Entries, memory, memory-Dependable, blank, same_header, third_answers,
}

-- A server that keeps a list of handlers, and room for more.
abbrev Registered : Type 0
Registered = List UriHandler × (ℕ × Bool)

abbrev add_handler : UriHandler → Registered → EspErr × Registered
add_handler h (hs, (zero, has_404)) = (esp_fail, (hs, (0, has_404)))
add_handler h (hs, (suc room, has_404)) = (esp_ok, (h ∷ hs, (room, has_404)))

abbrev listening : Httpd Registered
listening = record {
  start = λ n. (esp_ok, ([], (n, false)));
  register_uri_handler = add_handler;
  register_404_handler = λ s. (esp_ok, (s.0, (s.1.0, true)));
  find = λ s method uri. route method uri s.0;
  has_404_handler = λ s. s.1.1;
}

listening_room : (h : UriHandler) (s : Registered) → s.1.0 ≤ (add_handler h s).1.1.0 + 1
listening_room h (hs, (zero, has_404)) = omega arith
listening_room h (hs, (suc room, has_404)) = omega arith

listening_find :
    (h : UriHandler) (s : Registered)
    → suc zero ≤ s.1.0
    → (method : Method) (uri : String)
    → route method uri (add_handler h s).1.0
      ≡ (if is_for method uri h then some h.handler else route method uri s.0)
listening_find h (hs, (zero, has_404)) more method uri = absurd (omega arith)
listening_find h (hs, (suc room, has_404)) more method uri = refl

listening-Documented : Routes.Documented listening
listening-Documented = record {
  room = λ s. s.1.0;
  start_ok = λ n. refl;
  start_room = λ n. refl;
  start_find = λ n method uri. refl;
  register_room = listening_room;
  register_find = λ h s more none_yet. listening_find h s (omega arith);
  register_404_find = λ s method uri. refl;
  register_404_has = λ s. refl;
}

start_webserver_serves_example :
    (s : Registered) × (start_webserver listening ≡ some s)
    × (s.1.1 ≡ true)
    × ((method : Method) (uri : String) → route method uri s.0 ≡ route method uri uri_handlers)
start_webserver_serves_example = start_webserver_serves listening-Documented

calm-Mounts : Mounts calm
calm-Mounts = record {
  register_ok = λ t. refl;
  check_ok = λ t. refl;
  info_ok = λ t. refl;
  used_fits = λ t. omega arith;
  files_kept = λ t files. refl;
}

abbrev options : WifiOptions
options = record {
  sta_ssid = codes "Lion";
  sta_password = codes "delta";
  ap_ssid = codes "esp32_ssid";
  max_connection = 4;
}

abbrev silent : Scanner
silent = record { scan_start = esp_fail; ap_num = 0; malloc_ok = true; get_ap_records = λ n. [] }

wifi_init_sta-wifi_connect_handler_example :
    let after = (wifi_connect_handler memory true same_header blank).1 in
    let (a, b) = (get_wifi_credentials memory (zeros 64) (zeros 64) after).0.1 in
    ((wifi_init_sta memory options (λ c. esp_ok) silent after).0
      ≡ some (
        station_for (codes "home") (codes "home"),
        (wifi_scan_networks silent options.sta_ssid).0,
      ))
    × (length a ≡ 64)
    × (length b ≡ 64)
wifi_init_sta-wifi_connect_handler_example =
    wifi_init_sta-wifi_connect_handler memory options (λ c. esp_ok) silent (λ c. refl)
      memory-Dependable same_header blank (omega arith) (omega arith)

abbrev board : Board Entries Entries Registered
board = record {
  env = calm;
  nvs = memory;
  params = memory;
  httpd = listening;
  options = options;
  main_check = λ c. esp_ok;
  wifi_check = λ c. esp_ok;
  scanner = λ started. silent;
  queue_created = true;
  dns_task_created = true;
  tm_year = 70;
  sync_wait = third_answers;
}

board-Passes : Passes board
board-Passes = record {
  main = λ c. refl;
  wifi = λ c. refl;
  storage = memory-Dependable;
  params = memory-Dependable;
}

abbrev unset_clock : Clock
unset_clock = record { sntp = none; time_waits = 0; timezone = none }

abbrev off : Machine Entries Entries Registered
off = record {
  world = fresh;
  storage = blank;
  params = blank;
  queue = false;
  sta = none;
  scan_log = none;
  ap = none;
  server = none;
  dns = false;
  wifi_started = false;
  clock = unset_clock;
}

app_main_starts_example :
    (m' : Machine Entries Entries Registered) × (app_main board off ≡ some (tt, m'))
    × Started board-Passes 200 [] off m'
app_main_starts_example =
    app_main_starts board-Passes calm-Reliable calm-Mounts listening-Documented 200 [] off
      (omega arith) (inr (refl, refl, refl, refl))
