-- ===== src/Server/Monitor.antt =====
-- The message queue and `http_server_monitor` of components/app_local_server/app_local_server.c, with
-- the enumerations of include/app_local_server.h.
use captive_portal_esp.Base.{
  ℕ, zero, suc, ◌+◌, ◌<◌, ◌≡◌, Bool, true, false, Option, none, some, List, [], ◌∷◌, ◌++◌,
  if◌then◌else◌, length,
}

-- `http_server_msg_e`
pub data Msg : Type 0 where
  wifi_connect_init wifi_connect_success wifi_connect_fail wifi_user_disconnect : Msg
  ota_update_successful ota_update_failed time_service_initialized : Msg

-- `http_server_wifi_connect_status_e`
pub data WifiStatus : Type 0 where
  connect_none connecting connect_failed connect_success disconnected : WifiStatus

-- OTA_UPDATE_PENDING, OTA_UPDATE_SUCCESSFUL and OTA_UPDATE_FAILED
pub data OtaStatus : Type 0 where
  pending successful failed : OtaStatus

-- The globals that the monitor writes, and how many restarts are due: `fw_update_reset` timers started.
pub record Status : Type 0 where
  pub wifi_connect_status : WifiStatus
  pub fw_update_status : OtaStatus
  pub is_local_time_set : Bool
  pub reset_timers : ℕ

abbrev pub initial_status : Status
initial_status = record {
  wifi_connect_status = connect_none;
  fw_update_status = pending;
  is_local_time_set = false;
  reset_timers = 0;
}

-- `http_server_fw_update_reset_timer`. The two ESP_ERROR_CHECK abort where the timer cannot be made:
-- that is `none`.
unfoldable pub fw_update_reset_timer : Bool → Status → Option Status
fw_update_reset_timer timer_ok s = elim (s.fw_update_status) [
  | successful ↦ if timer_ok then some (record s { reset_timers = s.reset_timers + 1 }) else none
  | _ ↦ some s
]

-- The switch of `http_server_monitor`.
unfoldable pub handle : Bool → Msg → Status → Option Status
unfolding fw_update_reset_timer
handle timer_ok wifi_connect_init s = some (record s { wifi_connect_status = connecting })
handle timer_ok wifi_connect_success s = some (record s { wifi_connect_status = connect_success })
handle timer_ok wifi_connect_fail s = some (record s { wifi_connect_status = connect_failed })
handle timer_ok wifi_user_disconnect s = some (record s { wifi_connect_status = disconnected })
handle timer_ok ota_update_successful s =
    fw_update_reset_timer timer_ok (record s { fw_update_status = successful })
handle timer_ok ota_update_failed s = some (record s { fw_update_status = failed })
handle timer_ok time_service_initialized s = some (record s { is_local_time_set = true })

-- `http_server_monitor`: the first message is taken and handled; where there is none, the call waits, and
-- nothing changes.
unfoldable pub http_server_monitor : Bool → List Msg → Status → Option (List Msg × Status)
http_server_monitor timer_ok [] s = some ([], s)
http_server_monitor timer_ok (msg ∷ queue) s = elim (handle timer_ok msg s) [
  | none ↦ none
  | some s' ↦ some (queue, s')
]

-- It returns true, which the main loop does not read.
unfoldable pub app_local_server_process : Bool → List Msg → Status → Option (List Msg × Status)
app_local_server_process = http_server_monitor

-- Rounds of the main loop of `app_main`.
unfoldable pub main_loop : Bool → ℕ → List Msg → Status → Option (List Msg × Status)
main_loop timer_ok zero queue s = some (queue, s)
main_loop timer_ok (suc rounds) queue s = elim (app_local_server_process timer_ok queue s) [
  | none ↦ none
  | some (queue', s') ↦ main_loop timer_ok rounds queue' s'
]

-- HTTP_SERVER_MONITOR_QUEUE_LEN
abbrev pub queue_len : ℕ
queue_len = 3

-- What the tasks do in any order, from `app_local_server_init` on. `Run sent handled queue status`: these
-- messages were sent and these handled, in this order, and the queue and the globals are now these.
-- `http_server_monitor_send_msg` puts a message behind the others, and waits while the queue is full;
-- `http_server_monitor` takes the first, and waits while there is none.
pub data Run : List Msg → List Msg → List Msg → Status → Type 0 where
  starts : Run [] [] [] initial_status
  sends :
      {sent handled queue : List Msg} {status : Status} (msg : Msg)
      → Run sent handled queue status
      → length queue < queue_len
      → Run (sent ++ msg ∷ []) handled (queue ++ msg ∷ []) status
  handles :
      {sent handled queue : List Msg} {status status' : Status} (msg : Msg)
      → Run sent handled (msg ∷ queue) status
      → handle true msg status ≡ some status'
      → Run sent (handled ++ msg ∷ []) queue status'
