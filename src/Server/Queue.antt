-- ===== src/Server/Queue.antt =====
-- Runs of the monitor of components/app_local_server/app_local_server.c, however its tasks interleave.
use mathlib.Core.List.{append_assoc, append-nil}
use captive_portal_esp.Base.{
  ℕ, ◌+◌, ◌≤◌, ◌≡◌, refl, sym, ap, ◌∙◌, Bool, true, false, none, some, List, [], ◌∷◌, ◌++◌, length,
  length-append, arith, subst,
}
use captive_portal_esp.Server.Monitor.{
  Msg, WifiStatus, OtaStatus, Status, handle, fw_update_reset_timer, Run,
}

-- What the messages say by themselves: the last of each kind decides.
abbrev wifi_says : Msg → WifiStatus → WifiStatus
wifi_says Msg.wifi_connect_init old = WifiStatus.connecting
wifi_says Msg.wifi_connect_success old = WifiStatus.connect_success
wifi_says Msg.wifi_connect_fail old = WifiStatus.connect_failed
wifi_says Msg.wifi_user_disconnect old = WifiStatus.disconnected
wifi_says _ old = old

abbrev pub ota_says : Msg → OtaStatus → OtaStatus
ota_says Msg.ota_update_successful old = OtaStatus.successful
ota_says Msg.ota_update_failed old = OtaStatus.failed
ota_says _ old = old

abbrev time_says : Msg → Bool → Bool
time_says Msg.time_service_initialized old = true
time_says _ old = old

abbrev restarts_for : Msg → ℕ
restarts_for Msg.ota_update_successful = 1
restarts_for _ = 0

abbrev pub last_by : {A : Type 0} → (Msg → A → A) → List Msg → A → A
last_by f [] a = a
last_by f (m ∷ ms) a = last_by f ms (f m a)

abbrev restarts : List Msg → ℕ
restarts [] = 0
restarts (m ∷ ms) = restarts_for m + restarts ms

-- The status that messages handled in this order lead to.
abbrev pub status_after : List Msg → Status
status_after ms = record {
  wifi_connect_status = last_by wifi_says ms WifiStatus.connect_none;
  fw_update_status = last_by ota_says ms OtaStatus.pending;
  is_local_time_set = last_by time_says ms false;
  reset_timers = restarts ms;
}

last_by-append :
    {A : Type 0} (f : Msg → A → A) (ms : List Msg) (m : Msg) (a : A)
    → last_by f (ms ++ m ∷ []) a ≡ f m (last_by f ms a)
last_by-append f [] m a = refl
last_by-append f (x ∷ ms) m a = last_by-append f ms m (f x a)

restarts-append : (ms : List Msg) (m : Msg) → restarts (ms ++ m ∷ []) ≡ restarts ms + restarts_for m
restarts-append [] m = omega arith
restarts-append (x ∷ ms) m = omega (arith, restarts-append ms m)

-- One message more.
handle-status_after :
    (ms : List Msg) (m : Msg) → handle true m (status_after ms) ≡ some (status_after (ms ++ m ∷ []))
unfolding handle fw_update_reset_timer
handle-status_after ms m =
    rw
      (
        last_by-append wifi_says ms m WifiStatus.connect_none,
        last_by-append ota_says ms m OtaStatus.pending,
        last_by-append time_says ms m false,
        restarts-append ms m,
      )
      (go m)
  where
    go :
        (m : Msg)
        → handle true m (status_after ms)
          ≡ some (record {
            wifi_connect_status = wifi_says m (last_by wifi_says ms WifiStatus.connect_none);
            fw_update_status = ota_says m (last_by ota_says ms OtaStatus.pending);
            is_local_time_set = time_says m (last_by time_says ms false);
            reset_timers = restarts ms + restarts_for m;
          })
    go Msg.wifi_connect_init =
        let same : restarts ms + 0 ≡ restarts ms = omega arith in rw same refl
    go Msg.wifi_connect_success =
        let same : restarts ms + 0 ≡ restarts ms = omega arith in rw same refl
    go Msg.wifi_connect_fail =
        let same : restarts ms + 0 ≡ restarts ms = omega arith in rw same refl
    go Msg.wifi_user_disconnect =
        let same : restarts ms + 0 ≡ restarts ms = omega arith in rw same refl
    go Msg.ota_update_successful = refl
    go Msg.ota_update_failed =
        let same : restarts ms + 0 ≡ restarts ms = omega arith in rw same refl
    go Msg.time_service_initialized =
        let same : restarts ms + 0 ≡ restarts ms = omega arith in rw same refl

some_injective : (a b : Status) → some a ≡ some b → a ≡ b
some_injective a b e = ap (λ o. elim o [ none ↦ a | some x ↦ x ]) e

-- On every interleaving of the tasks: the messages handled are those sent, in that order, less the
-- at most three that wait; and the globals are what the messages handled say, the last of each
-- kind, with one restart due for each successful firmware update.
pub messages_in_order :
    {sent handled queue : List Msg} {status : Status}
    → Run sent handled queue status
    → (sent ≡ handled ++ queue) × (length queue ≤ 3) × (status ≡ status_after handled)
messages_in_order Run.starts = (refl, omega arith, refl)
messages_in_order (Run.sends {sent} {handled} {queue} {status} msg run room) =
    let (order, bound, says) = messages_in_order run in
    (
      ap (λ x. x ++ msg ∷ []) order ∙ append_assoc handled queue (msg ∷ []),
      omega (arith, length-append queue (msg ∷ [])),
      says,
    )
messages_in_order (Run.handles {sent} {handled} {queue} {status} {status'} msg run handled_now) =
    let (order, bound, says) = messages_in_order run in
    (
      order ∙ sym (append_assoc handled (msg ∷ []) queue),
      omega (arith, bound),
      some_injective status' (status_after (handled ++ msg ∷ []))
          (sym handled_now ∙ ap (handle true msg) says ∙ handle-status_after handled msg),
    )

pub handle_total :
    (msg : Msg) (status : Status) → (status' : Status) × (handle true msg status ≡ some status')
unfolding handle fw_update_reset_timer
handle_total Msg.wifi_connect_init s = (_, refl)
handle_total Msg.wifi_connect_success s = (_, refl)
handle_total Msg.wifi_connect_fail s = (_, refl)
handle_total Msg.wifi_user_disconnect s = (_, refl)
handle_total Msg.ota_update_successful s = (_, refl)
handle_total Msg.ota_update_failed s = (_, refl)
handle_total Msg.time_service_initialized s = (_, refl)

-- Where the restart timer can be made: from any state that the tasks reach, the next rounds of the
-- main loop handle all messages that wait, in their order.
pub waiting_handled :
    (queue : List Msg) {sent handled : List Msg} {status : Status}
    → Run sent handled queue status
    → (status' : Status) × Run sent (handled ++ queue) [] status'
waiting_handled [] {sent} {handled} {status} run =
    (status, subst (λ h. Run sent h [] status) (sym (append-nil handled)) run)
waiting_handled (msg ∷ queue) {sent} {handled} {status} run =
    let (next, done) = handle_total msg status in
    let (last, later) = waiting_handled queue (Run.handles msg run done) in
    (last, subst (λ h. Run sent h [] last) (append_assoc handled (msg ∷ []) queue) later)
