-- ===== src/Dns.antt =====
-- components/app_local_server/dns_server.c: parsing a query, the reply, and what the server does with
-- a datagram. `char` is unsigned on the ESP32; a pointer into the reply is an offset.
pub mod Name
pub mod Sockets
pub mod Closed
pub mod Bounds
pub mod Packet
pub mod Answer
use captive_portal_esp.Base.{
  ℕ, zero, suc, ◌+◌, ◌*◌, ◌-◌, ◌/◌, ◌%◌, ◌^◌, Bool, true, false, not, Option, none, some, List, [],
  ◌∷◌, ◌++◌, ltb, ◌==◌, if◌then◌else◌, length, take, drop, get_or,
}
use captive_portal_esp.Bytes.{Bytes, le16, read16}
use captive_portal_esp.Text.{put, zeros}

-- `htons` of a `uint16_t` in memory, and `ntohs` of one
abbrev pub be16 : ℕ → Bytes
be16 n = n / 256 % 256 ∷ n % 256 ∷ []

abbrev pub byte : Bytes → ℕ → ℕ
byte b i = get_or b i 0

abbrev pub read_be16 : Bytes → ℕ → ℕ
read_be16 b i = 256 * byte b i + byte b (i + 1)

-- DNS_MAX_LEN and `sizeof(name)`
abbrev pub dns_max_len : ℕ
dns_max_len = 256

abbrev pub name_max_len : ℕ
name_max_len = 128

-- The rounds of the loop of `parse_dns_name`: `label` is where the next label starts, `name` what
-- `parsed_name` holds. `none` is NULL. Each round makes the name longer, so 129 are enough.
unfoldable pub parse_labels : ℕ → Bytes → ℕ → Bytes → ℕ → Option (ℕ × Bytes)
parse_labels zero packet label name name_len = none
parse_labels (suc fuel) packet label name name_len =
    let sub_name_len = byte packet label in
    let next_len = name_len + (sub_name_len + 1) in
    let next_name = name ++ (take sub_name_len (drop (label + 1) packet) ++ (46 ∷ [])) in
    let next_label = label + (sub_name_len + 1) in
    elim (ltb name_max_len next_len) [
      | true ↦ none
      | false ↦ elim (byte packet next_label == 0) [
        | true ↦ some (next_label + 1, put next_name (next_len - 1) (0 ∷ []))
        | false ↦ parse_labels fuel packet next_label next_name next_len
      ]
    ]

-- The offset behind the name, and the name that is logged.
unfoldable pub parse_dns_name : Bytes → ℕ → Option (ℕ × Bytes)
parse_dns_name packet raw_name = parse_labels 129 packet raw_name [] 0

-- `dns_answer_t`; the address is as the network interface holds it.
abbrev pub answer : Bytes → ℕ → ℕ → ℕ → Bytes
answer ip_addr qd_offset qd_type qd_class =
    be16 (0xC000 + qd_offset)
    ++ (be16 qd_type ++ (be16 qd_class ++ (0 ∷ 0 ∷ 1 ∷ 44 ∷ [] ++ (be16 4 ++ ip_addr))))

-- The loop over the questions, with `n` rounds left. Neither pointer moves.
unfoldable pub answer_questions : Bytes → ℕ → ℕ → Bytes → Option Bytes
answer_questions ip_addr zero req_len reply = some reply
answer_questions ip_addr (suc n) req_len reply = elim (parse_dns_name reply 12) [
  | none ↦ none
  | some (name_end, name) ↦
      let qd_type = read_be16 reply name_end in
      let qd_class = read_be16 reply (name_end + 2) in
      answer_questions ip_addr n req_len
        (if qd_type == 1 then put reply req_len (answer ip_addr 12 qd_type qd_class) else reply)
]

-- `flags |= QR_FLAG` on the flags as the little-endian chip reads them
abbrev pub set_qr : ℕ → ℕ
set_qr flags = if flags / 2 ^ 7 % 2 == 0 then flags + 2 ^ 7 else flags

-- What `parse_dns_request` returns: -1, 0, or the length of the reply with the reply.
pub data Parsed : Type 0 where
  failed no_reply : Parsed
  reply_of : ℕ → Bytes → Parsed

abbrev pub finished : ℕ → Option Bytes → Parsed
finished reply_len none = failed
finished reply_len (some reply) = if reply_len == 0 then no_reply else reply_of reply_len reply

-- `dns_reply_max_len` bytes of reply, the request at their start.
abbrev pub start_reply : Bytes → ℕ → Bytes
start_reply req dns_reply_max_len = req ++ zeros (dns_reply_max_len - length req)

abbrev pub set_header : Bytes → Bytes
set_header reply =
    put (put reply 2 (le16 (set_qr (read16 (drop 2 reply))))) 6 (be16 (read_be16 reply 4))

unfoldable pub parse_dns_request : Bytes → Bytes → ℕ → Parsed
parse_dns_request ip_addr req dns_reply_max_len =
    if ltb dns_reply_max_len (length req)
    then failed
    else (let reply = start_reply req dns_reply_max_len in
        let qd_count = read_be16 reply 4 in
        let reply_len = qd_count * 16 + length req in
        if not (read16 (drop 2 reply) / 2 ^ 11 % 16 == 0)
        then no_reply
        else if ltb dns_reply_max_len reply_len
        then failed
        else finished reply_len (answer_questions ip_addr qd_count (length req) (set_header reply)))

abbrev sent : Parsed → Option Bytes
sent failed = none
sent no_reply = none
sent (reply_of n reply) = some (take n reply)

-- The body of the loop of `dns_server_task` on a datagram received: what is sent back, if anything.
unfoldable pub respond : Bytes → Bytes → Option Bytes
respond ip_addr rx = sent (parse_dns_request ip_addr rx dns_max_len)
