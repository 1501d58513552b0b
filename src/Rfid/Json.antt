-- ===== src/Rfid/Json.antt =====
-- `rfid_manager_get_card_list_json` of components/rfid_manager/rfid_manager.c. `_length` is a
-- `uint16_t`, `size_t` has 32 bits; a text that `%s` prints ends at the first NUL from the name on, or at
-- the end of the block of cards.
use captive_portal_esp.Base.{
  ℕ, ◌+◌, ◌-◌, ◌%◌, ◌^◌, Bool, true, false, not, Option, none, some, List, [], ◌∷◌, ◌++◌, ltb, ◌==◌,
  if◌then◌else◌, drop,
}
use captive_portal_esp.Bytes.{Bytes, c_string, codes, le32}
use captive_portal_esp.Text.{put, snprintf, decimal, zeros}
use captive_portal_esp.Esp.{
  EspErr, esp_ok, esp_fail, no_mem, invalid_arg, Env, M, pure, ◌>>=◌, take_mutex, malloc,
}
use captive_portal_esp.Rfid.Card.{Card, encode_cards}
use captive_portal_esp.Rfid.Store.{leave, free_and_leave, read_database, read_cards}

-- `snprintf(buffer, buffer_max_len, ...)` of an error's message
abbrev pub report : Bytes → ℕ → Bytes → Bytes
report buffer buffer_max_len message =
    (snprintf buffer 0 buffer_max_len
      (codes "{\"status\":\"error\",\"message\":\"" ++ (message ++ codes "\"}"))).0

abbrev pub opening : ℕ → Bytes
opening count = codes "{\"status\":\"ok\",\"count\":" ++ (decimal count ++ codes ",\"cards\":[")

-- One card, where `behind` is what the memory holds behind it.
unfoldable pub entry : Bool → Card → Bytes → Bytes
entry is_comma c behind =
    (if is_comma then codes "," else [])
    ++ (codes "{\"id\":"
        ++ (decimal c.card_id
            ++ (codes ",\"name\":\""
                ++ (c_string (c.name ++ (c.padding ++ (le32 c.timestamp ++ behind)))
                    ++ (codes "\",\"active\":"
                        ++ (decimal c.active
                            ++ (codes ",\"timestamp\":" ++ (decimal c.timestamp ++ codes "}"))))))))

-- `buffer_max_len - _length` of type `size_t`
abbrev pub room_left : ℕ → ℕ → ℕ
room_left buffer_max_len len = (buffer_max_len + 2 ^ 32 - len) % 2 ^ 32

-- The loop "Add cards to JSON": the result, `_length` and the buffer behind it.
unfoldable pub print_cards : ℕ → List Card → Bool → ℕ → Bytes → EspErr × (ℕ × Bytes)
print_cards buffer_max_len [] is_comma len buffer = (esp_ok, (len, buffer))
print_cards buffer_max_len (c ∷ cs) is_comma len buffer =
    if not (ltb (len + 100) buffer_max_len)
    then (no_mem, (len, buffer))
    else (let (after, n) =
          snprintf buffer len (room_left buffer_max_len len) (entry is_comma c (encode_cards cs)) in
        print_cards buffer_max_len cs true ((len + n) % 2 ^ 16) after)

-- "Close JSON array and object"
unfoldable pub close_list : ℕ → EspErr → ℕ → Bytes → EspErr × Bytes
close_list buffer_max_len result len buffer =
    if ltb (len + 3) buffer_max_len
    then (result, (snprintf buffer len (room_left buffer_max_len len) (codes "]}")).0)
    else (no_mem, put buffer (buffer_max_len - 3) (codes "]}" ++ 0 ∷ []))

module _ (env : Env) where
  -- The result, and the buffer behind the call; `none` is NULL.
  unfoldable pub get_card_list_json : Option Bytes → ℕ → M (EspErr × Bytes)
  get_card_list_json none buffer_max_len = pure (invalid_arg, [])
  get_card_list_json (some buffer) buffer_max_len =
      if buffer_max_len == 0 then pure (invalid_arg, buffer) else do
        taken ← take_mutex env
        if not taken
            then pure (esp_fail, report buffer buffer_max_len (codes "Failed to acquire mutex"))
            else do
              let clear = zeros buffer_max_len ++ drop buffer_max_len buffer
              (ok, db) ← read_database env
              if not ok
                  then leave
                      (esp_fail, report clear buffer_max_len (codes "Failed to read database"))
                  else do
                    let (begun, n) = snprintf clear 0 buffer_max_len (opening db.card_count)
                    if not (ltb 0 db.card_count)
                        then leave (close_list buffer_max_len esp_ok (n % 2 ^ 16) begun)
                        else do
                          got ← malloc env
                          if not got
                              then leave (
                                no_mem,
                                report begun buffer_max_len (codes "Memory allocation failed"),
                              )
                              else do
                                (read_ok, cards) ← read_cards env db.card_count
                                if not read_ok
                                    then free_and_leave (
                                      esp_fail,
                                      report begun buffer_max_len (codes "Failed to read cards"),
                                    )
                                    else (let (result, (len, after)) =
                                          print_cards buffer_max_len cards false (n % 2 ^ 16)
                                            begun in
                                        free_and_leave (close_list buffer_max_len result len after))
