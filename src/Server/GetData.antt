-- ===== src/Server/GetData.antt =====
-- `http_server_get_data_handler` and `get_data_rsp_string` of
-- components/app_local_server/app_local_server.c: values for the names in a request.
pub mod Tokens
pub mod Texts
pub mod Values
pub mod Table
pub mod Answers
use captive_portal_esp.Base.{
  ℕ, zero, suc, ◌+◌, ◌-◌, ◌%◌, ◌^◌, Bool, true, false, ◌&&◌, ◌||◌, Option, none, some, [], ◌∷◌,
  ◌++◌, ltb, ◌==◌, if◌then◌else◌, length, take,
}
use captive_portal_esp.Bytes.{Bytes, c_string, codes}
use captive_portal_esp.Text.{snprintf, decimal, zeros}
use captive_portal_esp.Esp.{EspErr, esp_fail}
use captive_portal_esp.Server.Times.{Tm, time_string}
use captive_portal_esp.Server.Http.{Response, respond_with, send_500, ok_200, buffer_size}

-- What the other parts answer when the `i`-th name is looked up: `rand`, the times in UTC and in the time
-- zone that is set, the stack under `time_str`, and `g_wifi_connect_status`; and the build's texts.
pub record Readings : Type 0 where
  pub rand : ℕ → ℕ
  pub utc_time : ℕ → Tm
  pub local_time : ℕ → Tm
  pub stale : ℕ → Bytes
  pub wifi_connect_status : ℕ → ℕ
  pub ssid : Bytes
  pub compile_time : Bytes
  pub compile_date : Bytes

abbrev pub begins : Bytes → Bytes → Bool
begins [] text = true
begins (c ∷ cs) [] = false
begins (c ∷ cs) (d ∷ ds) = c == d && begins cs ds

-- `strstr(text, part) != NULL`
unfoldable pub contains : Bytes → Bytes → Bool
contains part [] = begins part []
contains part (c ∷ cs) = begins part (c ∷ cs) || contains part cs

abbrev pub quoted : Bytes → Bytes → Bytes
quoted name value = codes "\"" ++ (name ++ (codes "\":\"" ++ (value ++ codes "\"")))

-- The text that the chain of tests on the name prints.
unfoldable pub pair_text : Readings → ℕ → Bytes → Bytes
pair_text r i key =
    if contains (codes "SSID") key
    then quoted (codes "SSID") r.ssid
    else if contains (codes "Temp") key
    then quoted (codes "Temp") (decimal (r.rand i % 100))
    else if contains (codes "Humidity") key
    then quoted (codes "Humidity") (decimal (r.rand i % 100))
    else if contains (codes "UTC") key
    then quoted (codes "UTC") (c_string (time_string (r.utc_time i) (r.stale i) 20))
    else if contains (codes "Local") key
    then quoted (codes "Local") (c_string (time_string (r.local_time i) (r.stale i) 20))
    else if contains (codes "CompileTime") key
    then quoted (codes "CompileTime") r.compile_time
    else if contains (codes "CompileDate") key
    then quoted (codes "CompileDate") r.compile_date
    else if contains (codes "FirmwareVersion") key
    then quoted (codes "FirmwareVersion") (codes "V1.0.0")
    else if contains (codes "WiFiStatus") key
    then quoted (codes "WiFiStatus") (decimal (r.wifi_connect_status i))
    else quoted key []

-- The result and the buffer. The pointers are not NULL where it is called.
unfoldable pub get_data_rsp_string : Readings → ℕ → Bytes → Bytes → ℕ → Bool × Bytes
get_data_rsp_string r i key buffer len =
    if len == 0 then (false, buffer) else (true, (snprintf buffer 0 len (pair_text r i key)).0)

-- `strtok` with ",": the token and the text behind it.
abbrev pub skip_commas : Bytes → Bytes
skip_commas [] = []
skip_commas (c ∷ cs) = if c == b',' then skip_commas cs else c ∷ cs

abbrev pub token_of : Bytes → Bytes
token_of [] = []
token_of (c ∷ cs) = if c == b',' then [] else c ∷ token_of cs

abbrev pub after_token : Bytes → Bytes
after_token [] = []
after_token (c ∷ cs) = if c == b',' then cs else after_token cs

unfoldable pub strtok : Bytes → Option (Bytes × Bytes)
strtok text = elim (skip_commas text) [
  | [] ↦ none
  | c ∷ cs ↦ some (token_of (c ∷ cs), after_token (c ∷ cs))
]

-- `HTTP_SERVER_BUFFER_SIZE - length`, in 32 bits
abbrev pub size_left : ℕ → ℕ
size_left len = (buffer_size + 2 ^ 32 - len) % 2 ^ 32

abbrev pub comma : Bool → Bytes
comma is_comma = if is_comma then codes "," else []

-- The value for one token, behind what is in the buffer.
unfoldable pub print_value : Readings → ℕ → Bool → Bytes → Bytes → ℕ → Bytes × ℕ
print_value r i is_comma token buffer len =
    let (done, temp_buff) = get_data_rsp_string r i token (zeros 256) 256 in
    let (after, printed) =
      snprintf buffer len (size_left len) (comma is_comma ++ c_string temp_buff) in
    (after, len + printed)

-- `while (token != NULL)`
unfoldable pub print_values : ℕ → Readings → ℕ → Bool → Bytes → Bytes → ℕ → Bytes × ℕ
print_values zero r i is_comma text buffer len = (buffer, len)
print_values (suc fuel) r i is_comma text buffer len = elim (strtok text) [
  | none ↦ (buffer, len)
  | some (token, text') ↦
      let (after, len') = print_value r i is_comma token buffer len in
      print_values fuel r (i + 1) true text' after len'
]

-- `http_server_buffer` and `length` when all names are printed
unfoldable pub get_data_text : Readings → Bytes → Bytes × ℕ
get_data_text r key =
    let (begun, len) = snprintf (zeros buffer_size) 0 buffer_size (codes "{") in
    let (filled, len') = print_values (length key + 1) r 0 false key begun len in
    let (ended, printed) = snprintf filled len' (size_left len') (codes "}") in
    (ended, len' + printed)

-- What `httpd_resp_send` reads.
abbrev pub get_data_response : Bytes × ℕ → Response
get_data_response (buffer, len) =
    if ltb 0 len
    then respond_with ok_200 (take (len % 2 ^ 16) buffer)
    else respond_with ok_200 (codes "{\"status\": \"error\"}")

-- `none` is a body that could not be received. `parse` is cJSON: nothing, or the string "key" if there is
-- one. `send_result` is what `httpd_resp_send` returns.
unfoldable pub get_data_handler :
    Readings → (Bytes → Option (Option Bytes)) → EspErr → Option Bytes → EspErr × Response
get_data_handler r parse send_result none = (esp_fail, send_500)
get_data_handler r parse send_result (some buf) = elim (parse (c_string buf)) [
  | none ↦ (esp_fail, send_500)
  | some key_obj ↦ elim key_obj [
    | none ↦ (esp_fail, send_500)
    | some key ↦ (send_result, get_data_response (get_data_text r (c_string key)))
  ]
]
