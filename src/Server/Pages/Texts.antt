-- ===== src/Server/Pages/Texts.antt =====
-- The short texts of components/app_local_server/app_local_server.c fit into their arrays.
use captive_portal_esp.Base.{
  ◌+◌, ◌≤◌, ◌≡◌, refl, ap, ◌∙◌, true, some, List, ◌++◌, ltb, lt→ltb, length, length-append, arith,
}
use captive_portal_esp.Bytes.{Bytes, codes}
use captive_portal_esp.Esp.{esp_ok}
use captive_portal_esp.Server.Monitor.{Msg, Status, OtaStatus, Run}
use captive_portal_esp.Server.Queue.{messages_in_order, last_by, ota_says}
use captive_portal_esp.CString.{IsText-append, c_string-snprintf}
use captive_portal_esp.Server.Times.{
  Tm, InRange, date_text, c_string-time_string, length-date_text, IsText-date_text,
}
use captive_portal_esp.Server.Pages.{
  time_text, time_handler, page, ota_number, ota_text, ota_status_handler, get_ssid_handler,
}

length-ota_number : (s : OtaStatus) → length (ota_number s) ≤ 2
length-ota_number OtaStatus.pending = omega arith
length-ota_number OtaStatus.successful = omega arith
length-ota_number OtaStatus.failed = omega arith

length-ota_text :
    (number time date : Bytes)
    → length (ota_text number time date) ≡ length number + length time + length date + 58
length-ota_text number time date = omega (
  arith,
  length-append number (
      codes ",\"compile_time\":\""
      ++ (time ++ (codes "\",\"compile_date\":\"" ++ (date ++ codes "\"}")))),
  length-append time (codes "\",\"compile_date\":\"" ++ (date ++ codes "\"}")),
  length-append date (codes "\"}"),
)

pub ota_status_handler_sends :
    (s : OtaStatus) (time date : Bytes)
    → length time ≡ 8
    → length date ≡ 11
    → ota_status_handler s time date
      ≡ some (esp_ok, page "application/json" (ota_text (ota_number s) time date))
unfolding ota_status_handler
ota_status_handler_sends s time date t d =
    let fits : ltb (length (ota_text (ota_number s) time date)) 100 ≡ true =
      lt→ltb _ _
        (omega (arith, length-ota_text (ota_number s) time date, length-ota_number s, t, d)) in
    rw fits refl

-- On every interleaving of the tasks, the page is told the result of the last firmware update
-- whose message was handled, or that none was, and the text fits into its array.
pub ota_status_handler_reports :
    {sent handled queue : List Msg} {status : Status} (run : Run sent handled queue status)
    (time date : Bytes)
    → length time ≡ 8
    → length date ≡ 11
    → ota_status_handler status.fw_update_status time date
      ≡ some (
        esp_ok,
        page "application/json"
            (ota_text (ota_number (last_by ota_says handled OtaStatus.pending)) time date),
      )
ota_status_handler_reports {handled} run time date t d =
    ap (λ s. ota_status_handler s.fw_update_status time date) (messages_in_order run).2
    ∙ ota_status_handler_sends (last_by ota_says handled OtaStatus.pending) time date t d

-- The name of the access point fits, which may have 32 bytes.
get_ssid_handler_sends :
    (ap_ssid : Bytes)
    → length ap_ssid ≤ 32
    → get_ssid_handler ap_ssid
      ≡ some (esp_ok, page "application/json" (codes "{\"ssid\":\"" ++ (ap_ssid ++ codes "\"}")))
unfolding get_ssid_handler
get_ssid_handler_sends ap_ssid h =
    let fits : ltb (length (codes "{\"ssid\":\"" ++ (ap_ssid ++ codes "\"}"))) 100 ≡ true =
      lt→ltb _ _ (omega (arith, length-append ap_ssid (codes "\"}"))) in
    rw fits refl

length-time_text :
    (local utc : Bytes) → length (time_text local utc) ≡ length local + length utc + 31
length-time_text local utc = omega (
  arith,
  length-append local (codes "\",\"utc_time\":\"" ++ (utc ++ codes "\"}")),
  length-append utc (codes "\"}"),
)

-- Both times are shown in full, in an array that has room for the text around them.
pub time_handler_sends :
    (local utc : Tm) (local_stale utc_stale : Bytes)
    → InRange local
    → InRange utc
    → time_handler local utc local_stale utc_stale
      ≡ (esp_ok, page "application/json" (time_text (date_text local) (date_text utc)))
unfolding time_handler
time_handler_sends local utc local_stale utc_stale l u =
    let text = time_text (date_text local) (date_text utc) in
    let is_text = IsText-append (codes "{\"local_time\":\"") _ refl (
      IsText-append (date_text local) _ (IsText-date_text local) (
        IsText-append (codes "\",\"utc_time\":\"") _ refl
          (IsText-append (date_text utc) _ (IsText-date_text utc) refl))) in
    let printed = c_string-snprintf 200 text is_text (
      omega (
        arith,
        length-time_text (date_text local) (date_text utc),
        length-date_text l,
        length-date_text u,
      )) in
    rw
      (
        c_string-time_string local_stale 64 l (omega arith),
        c_string-time_string utc_stale 64 u (omega arith),
        printed,
      )
      refl
