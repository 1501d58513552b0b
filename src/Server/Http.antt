-- ===== src/Server/Http.antt =====
-- What the handlers of components/app_local_server/app_local_server.c read from a request and put into a
-- response.
use captive_portal_esp.Base.{
  ℕ, ◌+◌, ◌-◌, ◌*◌, ◌%◌, ◌^◌, Bool, true, false, ◌&&◌, ◌||◌, Option, [], ◌∷◌, ltb, leb, ◌==◌,
  if◌then◌else◌,
}
use captive_portal_esp.Bytes.{Bytes}
use captive_portal_esp.Text.{decimal}

-- The status line of the response.
pub data HttpStatus : Type 0 where
  ok_200 created_201 redirect_302 bad_request_400 forbidden_403 not_found_404 server_error_500 :
      HttpStatus

pub record Response : Type 0 where
  pub status : HttpStatus
  pub body : Bytes

abbrev pub respond_with : HttpStatus → Bytes → Response
respond_with status body = record { status = status; body = body }

-- `httpd_resp_send_500`, whose text is the library's
abbrev pub send_500 : Response
send_500 = respond_with server_error_500 []

-- HTTP_SERVER_BUFFER_SIZE and `sizeof(urlBuffer)`
abbrev pub buffer_size : ℕ
buffer_size = 3072

abbrev pub url_buffer_size : ℕ
url_buffer_size = 256

-- The number that the digits at the start of a text write, behind the digits of `n`.
unfoldable pub digits_from : Bytes → ℕ → ℕ
digits_from [] n = n
digits_from (c ∷ cs) n = if leb 48 c && leb c 57 then digits_from cs (n * 10 + (c - 48)) else n

-- Too large a number is 2^32 - 1, with a minus sign too; another is negated in 32 bits by it.
abbrev unsigned_long : Bool → ℕ → ℕ
unsigned_long negative n =
    if ltb (2 ^ 32 - 1) n then 2 ^ 32 - 1 else if negative then (2 ^ 32 - n) % 2 ^ 32 else n

-- `strtoul` with base 10: white space, a sign, digits.
unfoldable pub strtoul : Bytes → ℕ
strtoul [] = 0
strtoul (c ∷ cs) =
    let rest = strtoul cs in
    if c == 32 || (leb 9 c && leb c 13)
    then rest
    else if c == 43
    then unsigned_long false (digits_from cs 0)
    else if c == 45
    then unsigned_long true (digits_from cs 0)
    else unsigned_long false (digits_from (c ∷ cs) 0)

-- `%ld` of a `uint32_t`, which is read as a signed number
unfoldable pub signed_decimal : ℕ → Bytes
signed_decimal n = if ltb n (2 ^ 31) then decimal n else 45 ∷ decimal (2 ^ 32 - n)

-- What cJSON makes of a body: nothing, or the fields "id" (as a `uint32_t`), "nm" and "card_id", where they
-- are of the type that the handlers ask for.
pub record Fields : Type 0 where
  pub id : Option ℕ
  pub nm : Option Bytes
  pub card_id : Option Bytes
