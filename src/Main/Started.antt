-- ===== src/Main/Started.antt =====
-- The start of main/main.c as a whole: what the components are left with.
use Prim.Native.String.{String}
use captive_portal_esp.Base.{
  ℕ, ◌+◌, ◌≤◌, ◌≡◌, refl, ap, ◌∙◌, some, List, ◌++◌, length, take_all, arith,
}
use captive_portal_esp.Bytes.{Bytes}
use captive_portal_esp.Text.{zeros}
use captive_portal_esp.CString.{IsText}
use captive_portal_esp.Esp.{Reliable}
use captive_portal_esp.Storage.Mounted.{Mounts}
use captive_portal_esp.Rfid.Card.{Card}
use captive_portal_esp.Rfid.Represents.{Represents}
use captive_portal_esp.Rfid.Defaults.{Holds}
use captive_portal_esp.Nvs.Api.{Session}
use captive_portal_esp.Nvs.Credentials
use captive_portal_esp.Nvs.Credentials.{get_wifi_credentials}
use captive_portal_esp.Nvs.Keeps.{Has, get_wifi_credentials-Has}
use captive_portal_esp.Wifi.Configured.{station_for, c_string-filled}
use captive_portal_esp.Server.Routes
use captive_portal_esp.Server.Routes.{Method, Handler, route, uri_handlers}
use captive_portal_esp.Server.Routes.Served.{start_webserver_serves}
use captive_portal_esp.TimeSync.{Synchronised, time_sync_init-Synchronised}
use captive_portal_esp.Main.{Board, Machine, app_main}
use captive_portal_esp.Main.Boot.{Passes, storage_init, chosen, booted, app_main-Ends}
use captive_portal_esp.Main.Cards.{Found, boot_cards}

-- The main loop begins with these cards and at most three more, all default ids among them; a server
-- that has the table's handlers; the station configured for the credentials that the storage holds; and the
-- time zone set, behind the wait for the time if the clock had none.
pub record Started {S P H : Type 0} {b : Board S P H} (ok : Passes b) (max : ℕ) (cards : List Card)
    (m m' : Machine S P H) : Type 0 where
  pub extra : List Card
  pub few : length extra ≤ 3
  pub files : Represents max (cards ++ extra) m'.world
  pub defaults :
      Holds (cards ++ extra) 0x12345678
      × Holds (cards ++ extra) 0x87654321
      × Holds (cards ++ extra) 0xABCDEF00
  pub server : H
  pub serves : m'.server ≡ some server
  pub routes :
      (method : Method) (uri : String)
      → b.httpd.find server method uri ≡ route method uri uri_handlers
  pub station :
      (ssid password : Bytes)
      → IsText ssid
      → IsText password
      → length ssid ≤ 62
      → length password ≤ 62
      → Has ok.storage m.storage.store ssid password
      → m'.sta ≡ some (station_for ssid password)
  pub clock : Synchronised b.tm_year b.sync_wait m.clock m'.clock

module _ {S P H : Type 0} {b : Board S P H} (ok : Passes b) where
  chosen_credentials :
      (s : Session S) (ssid password : Bytes)
      → IsText ssid
      → IsText password
      → length password ≤ 62
      → Has ok.storage s.store ssid password
      → chosen ok (Credentials.init b.nvs s).1 ≡ station_for ssid password
  chosen_credentials s ssid password ssid_text password_text short (ssid_there, password_there) =
      let s' : Session S = record s { store = (b.nvs.flash_init s.store).1 } in
      let found = get_wifi_credentials-Has ok.storage ssid password (zeros 64) (zeros 64) s' (
        ok.storage.flash_init_keeps s.store "_ssid" ∙ ssid_there,
        ok.storage.flash_init_keeps s.store "_password" ∙ password_there,
      ) in
      rw
        (
          storage_init ok s,
          found,
          c_string-filled (zeros 64) ssid ssid_text,
          c_string-filled (zeros 64) password password_text,
        )
        (rw (take_all 64 password (omega (arith, short))) refl)

  -- Where no platform call fails, the storage keeps what is set, and the HTTP library behaves as
  -- documented; where the files represent cards and have room for three more, or there are no
  -- files: the start reaches the main loop. The cards that were there stay, in their order, at
  -- most three follow, and the three default ids are among them all. The server has exactly the
  -- handlers of the table; if the storage holds credentials without a NUL of at most 62 bytes
  -- each, the station is configured with them, the name cut to 32 bytes, zeros behind both, and
  -- WPA2; and the time zone is set, behind at most 20 waits for the time if the clock shows a year
  -- before 2016.
  pub app_main_starts :
      (rel : Reliable b.env) (mounts : Mounts b.env) (docs : Routes.Documented b.httpd) (max : ℕ)
      (cards : List Card) (m : Machine S P H)
      → length cards + 3 ≤ max
      → Found rel mounts max cards m.world
      → (m' : Machine S P H) × (app_main b m ≡ some (tt, m')) × Started ok max cards m m'
  app_main_starts rel mounts docs max cards m room found =
      let (extra, few, (files, defaults)) = boot_cards rel mounts max cards m.world room found in
      let (server, serves, _, routes) = start_webserver_serves docs in
      (
        booted ok m,
        (app_main-Ends ok m).path,
        record {
          extra = extra;
          few = few;
          files = files;
          defaults = (defaults.0, defaults.1.0, defaults.1.1.0);
          server = server;
          serves = serves;
          routes = routes;
          station = λ ssid password t1 t2 short_ssid short has.
              ap some (chosen_credentials m.storage ssid password t1 t2 short has);
          clock = time_sync_init-Synchronised b.tm_year b.sync_wait m.clock;
        },
      )
