-- ===== src/Server/Ota.antt =====
-- `http_server_ota_update_handler` of components/app_local_server/app_local_server.c. The HTTP server
-- and the update library are a record of their answers.
use captive_portal_esp.Base.{
  ℕ, zero, suc, ◌+◌, ◌-◌, Bool, true, false, not, ◌&&◌, Option, none, some, List, [], ◌∷◌, ◌++◌,
  ltb, ◌==◌, if◌then◌else◌, ◌⊎◌, inl, inr, length, take, drop, min,
}
use captive_portal_esp.Bytes.{Bytes, c_string}
use captive_portal_esp.Esp.{EspErr, esp_ok, esp_fail, is_ok}
use captive_portal_esp.Server.Monitor.{Msg}

-- What `httpd_req_recv` returns: bytes read, none of them at the end of the body, or an error.
pub data Recv : Type 0 where
  received : Bytes → Recv
  sock_timeout sock_error : Recv

pub record Client : Type 0 where
  pub content_len : ℕ
  -- the answer to each call of `httpd_req_recv`, by its number
  pub recv : ℕ → Recv
  -- the stack under `ota_buffer`
  pub stale : Bytes
  pub ota_begin : EspErr
  -- the call of `esp_ota_write` that follows the `i`-th call of `httpd_req_recv`
  pub ota_write : ℕ → EspErr
  -- `esp_ota_end`, on the handle of `esp_ota_begin` or on one that nobody set
  pub ota_end : Bool → EspErr
  pub set_boot_partition : EspErr

-- What `esp_ota_write` brings to the partition, where a call that fails brings nothing. The handler does
-- not test what it returns.
abbrev pub written_by : Client → ℕ → Bytes → Bytes
written_by c i bytes = if is_ok (c.ota_write i) then bytes else []

-- What the handler did: whether an update is begun and ended, the image written, whether the boot
-- partition was set, and the messages sent to the monitor.
pub record Update : Type 0 where
  pub begun : Bool
  pub image : Bytes
  pub ended : Bool
  pub boot_set : Bool
  pub messages : List Msg

abbrev pub nothing_yet : Update
nothing_yet = record { begun = false; image = []; ended = false; boot_set = false; messages = [] }

-- A return, a pointer that is not into the bytes read, or no more fuel.
pub data Outcome : Type 0 where
  returned : EspErr → Update → Outcome
  undefined unfinished : Outcome

abbrev pub is_blank_line : Bytes → Bool
is_blank_line (a ∷ b ∷ c ∷ d ∷ cs) = (a == 13 && b == 10) && (c == 13 && d == 10)
is_blank_line _ = false

-- `strstr(text, "\r\n\r\n")` as an offset
unfoldable pub find_blank_line : Bytes → ℕ → Option ℕ
find_blank_line [] offset = none
find_blank_line (c ∷ cs) offset =
    let rest = find_blank_line cs (offset + 1) in
    if is_blank_line (c ∷ cs) then some offset else rest

-- From `esp_ota_end` on.
unfoldable pub finish : Client → Update → Outcome
finish c u =
    let flash_successful = is_ok (c.ota_end u.begun) && is_ok c.set_boot_partition in
    returned esp_ok (record u {
      ended = true;
      boot_set = flash_successful;
      messages =
          u.messages
          ++ (if flash_successful then Msg.ota_update_successful else Msg.ota_update_failed) ∷ [];
    })

-- The first bytes: the image starts behind the blank line.
unfoldable pub write_first : Client → Bytes → Update → Outcome ⊎ (ℕ × Update)
write_first c piece u = elim (find_blank_line (c_string (piece ++ drop (length piece) c.stale)) 0) [
  | none ↦ inl undefined
  | some offset ↦
      if ltb (length piece) (offset + 4)
      then inl undefined
      else if not (is_ok c.ota_begin)
      then inl (returned esp_fail u)
      else inr (
        length piece - (offset + 4),
        record u { begun = true; image = written_by c 0 (drop (offset + 4) piece) },
      )
]

-- The do-while loop, from its `i`-th call of `httpd_req_recv` on; a `continue` tests `recv_len > 0` too.
unfoldable pub ota_loop : ℕ → Client → ℕ → ℕ → Bool → Update → Outcome
ota_loop zero c i content_received is_req_body_started u = unfinished
ota_loop (suc fuel) c i content_received is_req_body_started u = elim (c.recv i) [
  | sock_timeout ↦ finish c u
  | sock_error ↦ returned esp_fail u
  | received bytes ↦
      let piece = take (min c.content_len 1024) bytes in
      elim (if is_req_body_started
        then inr (length piece, record u { image = u.image ++ written_by c i piece })
        else write_first c piece u) [
          | inl outcome ↦ outcome
          | inr (written, u') ↦
              elim (ltb 0 (length piece) && ltb (content_received + written) c.content_len) [
                | true ↦ ota_loop fuel c (i + 1) (content_received + written) true u'
                | false ↦ finish c u'
              ]
        ]
]

-- The handler. Each round but the first and the last brings a byte at least.
unfoldable pub ota_update : Client → Outcome
ota_update c = ota_loop (suc (suc c.content_len)) c 0 0 false nothing_yet
