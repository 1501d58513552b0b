-- ===== src/Tests/Net.antt =====
-- Runs of the DNS server, the monitor and the firmware update.
use captive_portal_esp.Base.{
  ℕ, zero, suc, ◌≤◌, ◌≡◌, refl, true, none, some, [], ◌∷◌, ◌++◌, replicate, arith,
}
use captive_portal_esp.Bytes.{Bytes, codes}
use captive_portal_esp.Esp.{esp_ok}
use captive_portal_esp.Dns.{
  parse_labels, parse_dns_name, parse_dns_request, respond, answer_questions,
}
use captive_portal_esp.Dns.Name.{parse_dns_name-encode_labels}
use captive_portal_esp.Dns.Answer.{query, echo, answers, respond-answers}
use captive_portal_esp.Server.Monitor.{
  main_loop, Status, initial_status, Msg, Status, initial_status, Run, handle,
  fw_update_reset_timer,
}
use captive_portal_esp.Server.Queue.{status_after, messages_in_order}
use captive_portal_esp.Server.Ota.{
  Update, Recv, received, sock_timeout, Client, returned, ota_update, find_blank_line,
}
use captive_portal_esp.Server.Flash.{Sound, ota_update-Sound}
use captive_portal_esp.Server.Chunks.{pieces, ota_update_writes, ota_update_flashes}
use captive_portal_esp.Server.Loop.{ota_update_reaches_page}
use captive_portal_esp.Server.Pages.{page, ota_text, ota_status_handler}
use captive_portal_esp.Server.Ota.{finish}
use captive_portal_esp.Esp.{EspErr, esp_fail}
use captive_portal_esp.Server.Timeouts.{timeouts_end, ota_update_timeouts}

abbrev soft_ap : Bytes
soft_ap = 192 ∷ 168 ∷ 4 ∷ 1 ∷ []

-- id 0x1234, recursion desired, one question: example.com, class IN
abbrev example_query : Bytes
example_query = query 0x12 0x34 1 0 0 1 0 0 0 0 0 0 0 1 0 1 (codes "example") (codes "com" ∷ []) []

-- The second question is for another type.
respond-answers_example :
    respond soft_ap (
      query 0x12 0x34 1 0 0 2 0 0 0 0 0 0 0 1 0 1
        (codes "example")
        (codes "com" ∷ [])
        (192 ∷ 12 ∷ 0 ∷ 28 ∷ 0 ∷ 1 ∷ []))
    ≡ some (
        echo 0x12 0x34 1 0 0 2 0 0 0 0 0 0 0 1 0 1
          (codes "example")
          (codes "com" ∷ [])
          (192 ∷ 12 ∷ 0 ∷ 28 ∷ 0 ∷ 1 ∷ [])
        ++ answers 0x12 0x34 1 0 0 2 0 0 0 0 0 0 0 1 0 1
            (codes "example")
            (codes "com" ∷ [])
            (192 ∷ 12 ∷ 0 ∷ 28 ∷ 0 ∷ 1 ∷ [])
            soft_ap
            2)
respond-answers_example =
    respond-answers 0x12 0x34 1 0 0 2 0 0 0 0 0 0 0 1 0 1 (codes "example") (codes "com" ∷ [])
      (192 ∷ 12 ∷ 0 ∷ 28 ∷ 0 ∷ 1 ∷ []) (omega arith) (omega arith) (omega arith) (omega arith)
      (omega arith) (omega arith) (omega arith) (omega arith) soft_ap (omega arith, tt)
      (omega arith) refl refl (omega arith)

parse_dns_name-encode_labels_example :
    parse_dns_name example_query 12 ≡ some (25, codes "example.com" ++ 0 ∷ [])
parse_dns_name-encode_labels_example =
    parse_dns_name-encode_labels (codes "example") (codes "com" ∷ [])
      (0x12 ∷ 0x34 ∷ 1 ∷ 0 ∷ 0 ∷ 1 ∷ 0 ∷ 0 ∷ 0 ∷ 0 ∷ 0 ∷ 0 ∷ []) (0 ∷ 1 ∷ 0 ∷ 1 ∷ [])
      (omega arith, tt) (omega arith)

-- A query with opcode 1 (inverse query) is answered, since the mask meets other bits.
opcode_test :
    respond soft_ap (query 0 1 8 0 0 1 0 0 0 0 0 0 0 1 0 1 (codes "a") [] [])
    ≡ some (
        echo 0 1 8 0 0 1 0 0 0 0 0 0 0 1 0 1 (codes "a") [] []
        ++ answers 0 1 8 0 0 1 0 0 0 0 0 0 0 1 0 1 (codes "a") [] [] soft_ap 1)
unfolding respond parse_dns_request answer_questions parse_dns_name parse_labels
opcode_test = refl

-- A standard query with the bit AD is not.
ad_test : respond soft_ap (query 0 1 1 32 0 1 0 0 0 0 0 0 0 1 0 1 (codes "a") [] []) ≡ none
unfolding respond parse_dns_request
ad_test = refl

abbrev updated : Status
updated = record initial_status {
  fw_update_status = captive_portal_esp.Server.Monitor.OtaStatus.successful;
  reset_timers = 1;
}

messages_in_order_example :
    (Msg.ota_update_successful ∷ Msg.wifi_connect_init ∷ []
      ≡ (Msg.ota_update_successful ∷ []) ++ (Msg.wifi_connect_init ∷ []))
    × (1 ≤ 3)
    × (updated ≡ status_after (Msg.ota_update_successful ∷ []))
unfolding handle fw_update_reset_timer
messages_in_order_example = messages_in_order (
    Run.sends Msg.wifi_connect_init
      (Run.handles Msg.ota_update_successful
        (Run.sends Msg.ota_update_successful Run.starts (omega arith)) refl)
      (omega arith))

-- A form with a blank line, then "FIRM", "WA" and "RE" in three pieces.
abbrev first_piece : Bytes
first_piece = codes "form" ++ (13 ∷ 10 ∷ 13 ∷ 10 ∷ codes "FIRM")

abbrev uploads : Client
uploads = record {
  content_len = 16;
  recv = pieces (first_piece ∷ codes "WA" ∷ codes "RE" ∷ []);
  stale = replicate 1024 0;
  ota_begin = esp_ok;
  ota_end = λ begun. esp_ok;
  ota_write = λ i. esp_ok;
  set_boot_partition = esp_ok;
}

abbrev flashed : Update
flashed = record {
  begun = true;
  image = codes "FIRMWARE";
  ended = true;
  boot_set = true;
  messages = Msg.ota_update_successful ∷ [];
}

uploaded : ota_update uploads ≡ returned esp_ok flashed
unfolding find_blank_line
uploaded =
    ota_update_flashes uploads first_piece (codes "WA" ∷ codes "RE" ∷ []) 4 (λ k. refl)
      (omega arith, omega arith, (omega arith, omega arith, (omega arith, omega arith, tt))) refl
      refl (omega arith) refl (λ i. refl) refl refl

ota_update-Sound_example : Sound uploads (ota_update uploads)
ota_update-Sound_example = ota_update-Sound uploads

-- Two messages wait; the third round of the main loop handles that of the update.
ota_update_reaches_page_example :
    (after : Status) × (main_loop true 3
        (Msg.wifi_connect_init ∷ Msg.ota_update_failed ∷ Msg.ota_update_successful ∷ [])
        initial_status
      ≡ some ([], after))
    × (ota_status_handler after.fw_update_status (codes "12:34:56") (codes "May  6 2024")
        ≡ some (
          esp_ok,
          page "application/json" (ota_text (codes "1") (codes "12:34:56") (codes "May  6 2024")),
        ))
ota_update_reaches_page_example =
    ota_update_reaches_page uploads flashed (Msg.wifi_connect_init ∷ Msg.ota_update_failed ∷ []) 3
      initial_status (codes "12:34:56") (codes "May  6 2024") uploaded (omega arith) refl refl

-- The same, when the second call of `esp_ota_write` fails: the image lacks "WA", and is booted next.
abbrev one_write_fails : ℕ → EspErr
one_write_fails (suc zero) = esp_fail
one_write_fails _ = esp_ok

ota_update_writes_example :
    ota_update (record uploads { ota_write = one_write_fails })
    ≡ returned esp_ok (record {
      begun = true;
      image = codes "FIRMRE";
      ended = true;
      boot_set = true;
      messages = Msg.ota_update_successful ∷ [];
    })
unfolding find_blank_line finish
ota_update_writes_example =
    ota_update_writes (record uploads { ota_write = one_write_fails }) first_piece
      (codes "WA" ∷ codes "RE" ∷ []) 4 (λ k. refl)
      (omega arith, omega arith, (omega arith, omega arith, (omega arith, omega arith, tt))) refl
      refl (omega arith) refl

-- The same, when the second call of `httpd_req_recv` times out.
abbrev stalls : ℕ → Recv
stalls zero = received first_piece
stalls (suc zero) = sock_timeout
stalls (suc (suc k)) = received (codes "WARE")

ota_update_timeouts_example :
    ota_update (record uploads { recv = stalls })
    ≡ ota_update (timeouts_end (record uploads { recv = stalls }))
ota_update_timeouts_example =
    ota_update_timeouts (record uploads { recv = stalls }) first_piece refl
