-- ===== src/Server/WifiConnect.antt =====
-- `http_server_wifi_connect_handler` of components/app_local_server/app_local_server.c, which keeps the
-- credentials that a request has in its headers.
use Prim.Native.String.{String}
use captive_portal_esp.Base.{
  ℕ, ◌≡◌, Bool, true, not, Option, none, some, ◌++◌, if◌then◌else◌, ltb, take,
}
use captive_portal_esp.Bytes.{Bytes, c_string, codes}
use captive_portal_esp.Text.{snprintf, zeros}
use captive_portal_esp.Esp.{EspErr, esp_ok, esp_fail}
use captive_portal_esp.Nvs.Api.{Nvs, Dependable, Session, N, pure, ◌>>◌}
use captive_portal_esp.Nvs.Credentials.{set_wifi_credentials, get_wifi_credentials}
use captive_portal_esp.Nvs.Keeps.{filled, get_wifi_credentials-filled}
use captive_portal_esp.Server.Http.{Response, respond_with, send_500, ok_200}

abbrev pub connect_text : Bytes → Bytes → Bytes
connect_text ssid password =
    codes "{\"ssid\":\"" ++ (ssid ++ (codes "\",\"password\":\"" ++ (password ++ codes "\"}")))

-- The array `response` of 100 bytes, and `rsp_len`
abbrev pub connect_response : Bytes → Bytes → Bytes × ℕ
connect_response ssid password = snprintf (zeros 100) 0 100 (connect_text ssid password)

-- What `httpd_resp_send` reads from the array; `none` is a read behind it.
abbrev pub connect_sent : Bytes × ℕ → Option Response
connect_sent (response, rsp_len) =
    if ltb 100 rsp_len then none else some (respond_with ok_200 (take rsp_len response))

-- `header` is the text that `httpd_req_get_hdr_value_str` leaves in a cleared array of 64 bytes.
unfoldable pub wifi_connect_handler :
    {S : Type 0} → Nvs S → Bool → (String → Bytes) → N S (EspErr × Option Response)
wifi_connect_handler nvs received header =
    if not received then pure (esp_fail, some send_500) else do
      let ssid = c_string (header "my-connect-ssid")
      let password = c_string (header "my-connect-pswd")
      set_wifi_credentials nvs ssid password
      pure (esp_ok, connect_sent (connect_response ssid password))

module _ {S : Type 0} (nvs : Nvs S) (header : String → Bytes) (w : Session S) where
  -- Where the storage keeps what is set, the network's name and the password that a received
  -- request has in its headers are what is read from the storage afterwards.
  pub get_wifi_credentials-wifi_connect_handler :
      (doc : Dependable nvs) (a b : Bytes)
      → (get_wifi_credentials nvs a b (wifi_connect_handler nvs true header w).1).0 ≡ (
        true,
        (
          filled a (c_string (header "my-connect-ssid")),
          filled b (c_string (header "my-connect-pswd")),
        ),
      )
  unfolding wifi_connect_handler
  get_wifi_credentials-wifi_connect_handler doc a b =
      (get_wifi_credentials-filled doc (c_string (header "my-connect-ssid"))
        (c_string (header "my-connect-pswd")) a b w).1
