-- ===== src/Server/Loop.antt =====
-- From a firmware update to the page that asks for it: the handlers of components/app_local_server/app_local_server.c
-- with the monitor between them, which the main loop of main/main.c runs.
use captive_portal_esp.Base.{
  ℕ, zero, suc, ◌<◌, ◌≡◌, refl, ap, ◌∙◌, true, false, Bool, some, List, [], ◌∷◌, ◌++◌, ◌&&◌, length,
  if◌then◌else◌, inl, inr, arith, sym, subst, Option, none,
}
use captive_portal_esp.Bytes.{Bytes, codes}
use captive_portal_esp.Esp.{esp_ok, is_ok}
use captive_portal_esp.Server.Monitor.{
  Msg, Status, handle, fw_update_reset_timer, app_local_server_process, http_server_monitor,
  main_loop,
}
use captive_portal_esp.Server.Queue.{handle_total}
use captive_portal_esp.Server.Ota.{Client, Update, returned, ota_update}
use captive_portal_esp.Server.Flash.{Sound, ota_update-Sound}
use captive_portal_esp.Server.Pages.{page, ota_number, ota_text, ota_status_handler}
use captive_portal_esp.Server.Pages.Texts.{ota_status_handler_sends}

idle_loop : (rounds : ℕ) (s : Status) → main_loop true rounds [] s ≡ some ([], s)
unfolding main_loop app_local_server_process http_server_monitor
idle_loop zero s = refl
idle_loop (suc rounds) s = idle_loop rounds s

-- The messages in front are handled first, then this one, and nothing follows.
main_loop_last :
    (queue : List Msg) (msg : Msg) (rounds : ℕ) (s : Status)
    → length queue < rounds
    → (before after : Status) × (handle true msg before ≡ some after)
      × (main_loop true rounds (queue ++ msg ∷ []) s ≡ some ([], after))
unfolding main_loop app_local_server_process http_server_monitor
main_loop_last queue msg zero s enough = absurd (omega arith)
main_loop_last [] msg (suc rounds) s enough =
    let (after, handled) = handle_total msg s in
    (s, after, handled, rw (main_loop, handled) (idle_loop rounds after))
main_loop_last (m ∷ queue) msg (suc rounds) s enough =
    let (next, handled) = handle_total m s in
    let (before, after, last, rest) = main_loop_last queue msg rounds next (omega arith) in
    (before, after, last, rw (main_loop, handled) rest)

-- What the page is told of an update: 1 for one that is booted next, and -1 for another.
abbrev pub reported : Bool → Bytes
reported boot_set = if boot_set then codes "1" else codes "-1"

abbrev message_of : Bool → Msg
message_of ok = if ok then Msg.ota_update_successful else Msg.ota_update_failed

abbrev told : Option Status → Bytes
told none = []
told (some s) = ota_number s.fw_update_status

told_by :
    (ok : Bool) (before after : Status)
    → handle true (message_of ok) before ≡ some after
    → ota_number after.fw_update_status ≡ reported ok
unfolding handle fw_update_reset_timer
told_by true before after e = ap told (sym e)
told_by false before after e = ap told (sym e)

-- Where the restart timer can be made, and the build's time and date have 8 and 11 bytes: if the
-- handler of firmware updates returns ESP_OK, then, whatever the status and the messages that
-- wait, after as many rounds of the main loop as wait and one more no message waits, and the page
-- that asks for the status is told 1 if the update is booted next and -1 if not.
pub ota_update_reaches_page :
    (c : Client) (u : Update) (queue : List Msg) (rounds : ℕ) (s : Status) (time date : Bytes)
    → ota_update c ≡ returned esp_ok u
    → length queue < rounds
    → length time ≡ 8
    → length date ≡ 11
    → (after : Status) × (main_loop true rounds (queue ++ u.messages) s ≡ some ([], after))
      × (ota_status_handler after.fw_update_status time date
          ≡ some (esp_ok, page "application/json" (ota_text (reported u.boot_set) time date)))
ota_update_reaches_page c u queue rounds s time date e enough t d =
    elim (subst (Sound c) e (ota_update-Sound c)) [
      | inr (failed, _) ↦ absurd (cc failed)
      | inl (_, _, boot, told_once) ↦
          let ok = is_ok (c.ota_end u.begun) && is_ok c.set_boot_partition in
          let (before, after, last, ran) = main_loop_last queue (message_of ok) rounds s enough in
          (
            after,
            rw told_once ran,
            ota_status_handler_sends after.fw_update_status time date t d
                ∙ rw (told_by ok before after last, boot) refl,
          )
    ]
