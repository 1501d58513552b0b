-- ===== src/Server/Pages.antt =====
-- The handlers of components/app_local_server/app_local_server.c that send a file of the web pages or a short
-- text, and the one for paths that nothing is registered for. The files that the build embeds, the texts
-- of the build and the times are arguments; so is what `httpd_resp_send` returns.
pub mod Texts
use Prim.Native.String.{String}
use captive_portal_esp.Base.{ℕ, Bool, Option, none, some, ◌++◌, ltb, if◌then◌else◌, length}
use captive_portal_esp.Bytes.{Bytes, c_string, codes}
use captive_portal_esp.Text.{snprintf, decimal, zeros}
use captive_portal_esp.Esp.{EspErr, esp_ok}
use captive_portal_esp.Server.Times.{Tm, time_string}
use captive_portal_esp.Server.Http.{Response, respond_with, ok_200, redirect_302}
use captive_portal_esp.Server.Monitor.{OtaStatus}

-- The files between the symbols `_binary_…_start` and `_binary_…_end`
pub record Embedded : Type 0 where
  pub jquery_3_3_1_min_js : Bytes
  pub index_html : Bytes
  pub app_css : Bytes
  pub app_js : Bytes
  pub favicon_ico : Bytes
  pub rfid_html : Bytes
  pub rfid_css : Bytes
  pub rfid_js : Bytes

-- A response with its content type, and the header "Location" if it is set.
pub record Page : Type 0 where
  pub content_type : String
  pub location : Option String
  pub response : Response

abbrev pub page : String → Bytes → Page
page content_type body = record {
  content_type = content_type;
  location = none;
  response = respond_with ok_200 body;
}

module _ (files : Embedded) (send_result : EspErr) where
  unfoldable pub j_query_handler : EspErr × Page
  j_query_handler = (send_result, page "application/javascript" files.jquery_3_3_1_min_js)

  unfoldable pub index_html_handler : EspErr × Page
  index_html_handler = (send_result, page "text/html" files.index_html)

  unfoldable pub app_css_handler : EspErr × Page
  app_css_handler = (send_result, page "text/css" files.app_css)

  unfoldable pub app_js_handler : EspErr × Page
  app_js_handler = (send_result, page "application/javascript" files.app_js)

  unfoldable pub favicon_handler : EspErr × Page
  favicon_handler = (send_result, page "image/x-icon" files.favicon_ico)

  unfoldable pub rfid_html_handler : EspErr × Page
  rfid_html_handler = (send_result, page "text/html" files.rfid_html)

  unfoldable pub rfid_css_handler : EspErr × Page
  rfid_css_handler = (send_result, page "text/css" files.rfid_css)

  unfoldable pub rfid_js_handler : EspErr × Page
  rfid_js_handler = (send_result, page "application/javascript" files.rfid_js)

  unfoldable pub get_default_cards_handler : EspErr × Page
  get_default_cards_handler = (
    send_result,
    page "application/json" (
        codes
          "{\"status\":\"ok\",\"count\":3,\"cards\":[{\"id\":305419896,\"name\":\"Admin Card\",\"active\":1,\"timestamp\":0},{\"id\":2271560481,\"name\":\"User Card 1\",\"active\":1,\"timestamp\":0},{\"id\":2882400000,\"name\":\"User Card 2\",\"active\":1,\"timestamp\":0}]}"),
  )

-- `http_404_error_handler`. The status line says "302 Temporary Redirect".
unfoldable pub error_404_handler : EspErr × Page
error_404_handler = (
  esp_ok,
  record {
    content_type = "text/html";
    location = some "/";
    response = respond_with redirect_302 (codes "Redirect to the captive portal");
  },
)

-- `sprintf` into an array of `size` bytes; `none` is a write behind it.
abbrev pub sprintf : ℕ → Bytes → Option Bytes
sprintf size text = if ltb (length text) size then some text else none

abbrev pub sent_json : Option Bytes → Option (EspErr × Page)
sent_json none = none
sent_json (some text) = some (esp_ok, page "application/json" text)

-- `%d` of OTA_UPDATE_PENDING, OTA_UPDATE_SUCCESSFUL and OTA_UPDATE_FAILED
abbrev pub ota_number : OtaStatus → Bytes
ota_number OtaStatus.pending = codes "0"
ota_number OtaStatus.successful = codes "1"
ota_number OtaStatus.failed = codes "-1"

abbrev pub ota_text : Bytes → Bytes → Bytes → Bytes
ota_text number time date =
    codes "{\"ota_update_status\":"
    ++ (number
        ++ (codes ",\"compile_time\":\""
            ++ (time ++ (codes "\",\"compile_date\":\"" ++ (date ++ codes "\"}")))))

unfoldable pub ota_status_handler : OtaStatus → Bytes → Bytes → Option (EspErr × Page)
ota_status_handler fw_update_status time date =
    sent_json (sprintf 100 (ota_text (ota_number fw_update_status) time date))

unfoldable pub get_ssid_handler : Bytes → Option (EspErr × Page)
get_ssid_handler ap_ssid =
    sent_json (sprintf 100 (codes "{\"ssid\":\"" ++ (ap_ssid ++ codes "\"}")))

unfoldable pub get_sensor_data_handler : Option (EspErr × Page)
get_sensor_data_handler = sent_json (
    sprintf 100
      (codes "{\"temp\":" ++ (decimal 25 ++ (codes ",\"humidity\":" ++ (decimal 60 ++ codes "}")))))

abbrev pub time_text : Bytes → Bytes → Bytes
time_text local utc =
    codes "{\"local_time\":\"" ++ (local ++ (codes "\",\"utc_time\":\"" ++ (utc ++ codes "\"}")))

-- `local_stale` and `utc_stale` are the stack under the arrays of 64 bytes.
unfoldable pub time_handler : Tm → Tm → Bytes → Bytes → EspErr × Page
time_handler local utc local_stale utc_stale = (
  esp_ok,
  page "application/json" (
      c_string
        (snprintf (zeros 200) 0 200 (
          time_text (c_string (time_string local local_stale 64))
            (c_string (time_string utc utc_stale 64)))).0),
)
