-- ===== src/Server/Routes.antt =====
-- The table `uri_handlers` and `start_webserver` of components/app_local_server/app_local_server.c. The HTTP
-- server is a library: its calls are the fields of a record over a state of its own, and its documented
-- behaviour is `Documented`.
pub mod Served
use Prim.Native.String.{String}
use text.Mathlib.Text.{◌==◌ as str_eq}
use text.Mathlib.TextEquality.{eq_iff}
use captive_portal_esp.Base.{
  ℕ, ◌+◌, ◌≤◌, ◌<◌, ◌≡◌, refl, sym, ap, ◌∙◌, Bool, true, false, ◌&&◌, Option, none, some, List, [],
  ◌∷◌, if◌then◌else◌, length, arith, Bool-cases, Option-cases, inl, inr,
}
use captive_portal_esp.Esp.{EspErr, esp_ok, is_ok}

pub data Method : Type 0 where
  http_get http_post http_delete : Method

-- The functions of the table, less `http_server_` and `_handler`
pub data Handler : Type 0 where
  j_query index_html app_css app_js favicon ota_update ota_status get_ssid time get_sensor_data :
      Handler
  get_data wifi_connect list_cards get_default_cards add_card remove_card get_card_count : Handler
  check_card reset_cards rfid_html rfid_css rfid_js : Handler

-- `httpd_uri_t`, less the context, which is NULL
pub record UriHandler : Type 0 where
  pub uri : String
  pub method : Method
  pub handler : Handler

abbrev on : String → Method → Handler → UriHandler
on uri method handler = record { uri = uri; method = method; handler = handler }

unfoldable pub uri_handlers : List UriHandler
uri_handlers =
    on "/jquery-3.3.1.min.js" http_get j_query
    ∷ on "/" http_get index_html
    ∷ on "/app.css" http_get app_css
    ∷ on "/app.js" http_get app_js
    ∷ on "/favicon.ico" http_get favicon
    ∷ on "/OTAupdate" http_post ota_update
    ∷ on "/OTAstatus" http_post ota_status
    ∷ on "/apSSID" http_get get_ssid
    ∷ on "/localTime" http_get time
    ∷ on "/Sensor" http_get get_sensor_data
    ∷ on "/getData" http_post get_data
    ∷ on "/wifiConnect" http_post wifi_connect
    ∷ on "/cards/get" http_get list_cards
    ∷ on "/cards/defaults" http_get get_default_cards
    ∷ on "/cards/add" http_post add_card
    ∷ on "/cards/remove" http_delete remove_card
    ∷ on "/cards/count" http_get get_card_count
    ∷ on "/cards/check" http_get check_card
    ∷ on "/cards/reset" http_post reset_cards
    ∷ on "/rfid.html" http_get rfid_html
    ∷ on "/rfid" http_get rfid_html
    ∷ on "/rfid.css" http_get rfid_css
    ∷ on "/rfid.js" http_get rfid_js
    ∷ []

-- URI_HANDLER_MARGIN
abbrev pub uri_handler_margin : ℕ
uri_handler_margin = 1

-- `find` is the handler that the server calls for a request; where there is none it calls the handler
-- of the error 404, if one is registered.
pub record Httpd (S : Type 0) : Type 0 where
  pub start : ℕ → EspErr × S
  pub register_uri_handler : UriHandler → S → EspErr × S
  pub register_404_handler : S → EspErr × S
  pub find : S → Method → String → Option Handler
  pub has_404_handler : S → Bool

-- `start_webserver`: the server, if it could be started. What the registrations return is not looked at.
module _ {S : Type 0} (httpd : Httpd S) where
  unfoldable pub register_all : List UriHandler → S → S
  register_all [] s = s
  register_all (h ∷ hs) s = register_all hs (httpd.register_uri_handler h s).1

  unfoldable pub start_webserver : Option S
  start_webserver =
      let (err, s) = httpd.start (length uri_handlers + uri_handler_margin) in
      if is_ok err then some (httpd.register_404_handler (register_all uri_handlers s)).1 else none

abbrev pub same_method : Method → Method → Bool
same_method http_get http_get = true
same_method http_post http_post = true
same_method http_delete http_delete = true
same_method _ _ = false

-- The entry is for requests with this method and path.
abbrev pub is_for : Method → String → UriHandler → Bool
is_for method uri h = same_method h.method method && str_eq h.uri uri

-- The handler that the table has for a request.
abbrev pub route : Method → String → List UriHandler → Option Handler
route method uri [] = none
route method uri (h ∷ hs) = if is_for method uri h then some h.handler else route method uri hs

-- A server that was started for `n` handlers has room for `n`, and finds what was registered.
pub record Documented {S : Type 0} (httpd : Httpd S) : Type 0 where
  pub room : S → ℕ
  pub start_ok : (n : ℕ) → (httpd.start n).0 ≡ esp_ok
  pub start_room : (n : ℕ) → room (httpd.start n).1 ≡ n
  pub start_find : (n : ℕ) (m : Method) (u : String) → httpd.find (httpd.start n).1 m u ≡ none
  pub register_room :
      (h : UriHandler) (s : S) → room s ≤ room (httpd.register_uri_handler h s).1 + 1
  pub register_find :
      (h : UriHandler) (s : S)
      → 0 < room s
      → httpd.find s h.method h.uri ≡ none
      → (m : Method) (u : String)
      → httpd.find (httpd.register_uri_handler h s).1 m u
        ≡ (if is_for m u h then some h.handler else httpd.find s m u)
  pub register_404_find :
      (s : S) (m : Method) (u : String)
      → httpd.find (httpd.register_404_handler s).1 m u ≡ httpd.find s m u
  pub register_404_has : (s : S) → httpd.has_404_handler (httpd.register_404_handler s).1 ≡ true
