-- ===== src/Tests/Values.antt =====
-- Times and the values for names at concrete inputs.
use captive_portal_esp.Base.{◌+◌, ◌≡◌, refl, Option, some, arith, replicate}
use captive_portal_esp.Bytes.{Bytes, codes}
use captive_portal_esp.Esp.{esp_ok}
use captive_portal_esp.Server.Http.{respond_with, ok_200}
use captive_portal_esp.Server.GetData.{Readings, get_data_handler}
use captive_portal_esp.Server.Times.{Tm, InRange, date_text}
use captive_portal_esp.Text.{digits}
use captive_portal_esp.Server.GetData.Values.{InFormat}
use captive_portal_esp.Server.GetData.Table.{expected_object}
use captive_portal_esp.Server.GetData.Answers.{get_data_handler_answers}

-- 2024-05-06, 12:08:09 in UTC and 08:08:09 in Toronto
abbrev noon : Tm
noon = record { tm_year = 124; tm_mon = 4; tm_mday = 6; tm_hour = 12; tm_min = 8; tm_sec = 9 }

abbrev morning : Tm
morning = record noon { tm_hour = 8 }

noon-InRange : InRange noon
noon-InRange = record {
  year_range = omega arith;
  mon_range = omega arith;
  mday_range = omega arith;
  hour_range = omega arith;
  min_range = omega arith;
  sec_range = omega arith;
}

morning-InRange : InRange morning
morning-InRange = record {
  year_range = omega arith;
  mon_range = omega arith;
  mday_range = omega arith;
  hour_range = omega arith;
  min_range = omega arith;
  sec_range = omega arith;
}

date_text_test : date_text noon ≡ codes "2024-05-06 12:08:09"
unfolding date_text digits
date_text_test = refl

abbrev readings : Readings
readings = record {
  rand = λ i. 1234 + i;
  utc_time = λ i. noon;
  local_time = λ i. morning;
  stale = λ i. replicate 20 0xA5;
  wifi_connect_status = λ i. 3;
  ssid = codes "Lion";
  compile_time = codes "12:34:56";
  compile_date = codes "May  6 2024";
}

readings-InFormat : InFormat readings
readings-InFormat = record {
  ssid_length = omega arith;
  ssid_text = refl;
  utc_range = λ i. noon-InRange;
  local_range = λ i. morning-InRange;
  compile_time_length = omega arith;
  compile_time_text = refl;
  compile_date_length = omega arith;
  compile_date_text = refl;
  wifi_status_range = λ i. omega arith;
}

abbrev asks : Bytes → Option (Option Bytes)
asks body = some (some (codes "SSID,,Temp,door"))

abbrev asking : Bytes
asking = codes "{\"key\":\"SSID,,Temp,door\"}"

get_data_handler_answers_example :
    get_data_handler readings asks esp_ok (some asking)
    ≡ (esp_ok, respond_with ok_200 (expected_object readings (codes "SSID,,Temp,door")))
get_data_handler_answers_example =
    get_data_handler_answers readings-InFormat asks esp_ok asking (codes "SSID,,Temp,door") refl
      (omega arith) (omega arith)
