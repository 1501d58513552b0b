-- ===== src/Server/GetData/Answers.antt =====
-- What `http_server_get_data_handler` of components/app_local_server/app_local_server.c answers.
use mathlib.Core.List.{append-nil, append_assoc}
use captive_portal_esp.Base.{
  ℕ, zero, suc, ◌+◌, ◌-◌, ◌%◌, ◌*◌, ◌^◌, ◌≤◌, ◌<◌, ◌≡◌, refl, ap, ◌∙◌, Bool, true, false, Option,
  none, some, [], ◌++◌, ltb, lt→ltb, length, length-append, take-append, arith,
}
use captive_portal_esp.Bytes.{Bytes, c_string, codes}
use captive_portal_esp.Text.{zeros, snprintf_lem}
use captive_portal_esp.Esp.{EspErr}
use captive_portal_esp.Server.Http.{respond_with, ok_200, buffer_size}
use captive_portal_esp.Server.GetData.{
  Readings, pair_text, get_data_rsp_string, comma, size_left, strtok, print_value, print_values,
  get_data_text, get_data_response, get_data_handler,
}
use captive_portal_esp.CString.{IsText, c_string-IsText, c_string-snprintf}
use captive_portal_esp.Server.GetData.Tokens.{names, Found, strtok-Found, length-names}
use captive_portal_esp.Server.GetData.Values.{InFormat, Fits-pair_text}
use captive_portal_esp.Server.GetData.Table.{joined, joined_lem, expected_object}

-- The buffer with a text in it.
abbrev holding : Bytes → Bytes × ℕ
holding text = (text ++ zeros (buffer_size - length text), length text)

length-comma : (is_comma : Bool) (text : Bytes) → length (comma is_comma ++ text) ≤ length text + 1
length-comma true text = omega arith
length-comma false text = omega arith

print_value_lem :
    {r : Readings} (f : InFormat r) (i : ℕ) (is_comma : Bool) (key before : Bytes)
    → IsText key
    → length key ≤ 250
    → 9 * length key + 6 + length before < buffer_size
    → print_value r i is_comma key (holding before).0 (holding before).1
      ≡ holding (before ++ (comma is_comma ++ pair_text r i key))
unfolding print_value get_data_rsp_string
print_value_lem {r} f i is_comma key before h short room =
    let (long, small, clean) = Fits-pair_text f i key h in
    let text : Bytes = pair_text r i key in
    let shown : Bytes = comma is_comma ++ text in
    let size : length shown ≤ length text + 1 = length-comma is_comma text in
    let temp = c_string-snprintf 256 text clean (small short) in
    let left : size_left (length before) ≡ buffer_size - length before = omega (arith, room) in
    let k : ℕ = buffer_size - length before in
    let enough : length shown < k = omega (arith, size, long, room) in
    let printed = snprintf_lem before shown k k enough enough in
    let total : length (before ++ shown) ≡ length before + length shown =
      length-append before shown in
    let rest : k - length shown ≡ buffer_size - length (before ++ shown) = omega (arith, total) in
    rw (temp, left, printed, rest, total) refl

-- With enough fuel the loop prints the answers to all names behind what is in the buffer.
abbrev Prints : Readings → ℕ → Type 0
Prints r fuel =
    (i : ℕ) (is_comma : Bool) (text before : Bytes)
    → IsText text
    → length text < fuel
    → length text ≤ 250
    → 9 * length text + 6 * length (names text) + length before < buffer_size
    → (print_values fuel r i is_comma text (holding before).0 (holding before).1
        ≡ holding (before ++ joined r i is_comma (names text)))
      × (length (joined r i is_comma (names text)) ≤ 9 * length text + 6 * length (names text))

Prints-suc :
    {r : Readings} (f : InFormat r) (fuel : ℕ)
    → Prints r fuel
    → (i : ℕ) (is_comma : Bool) (text before : Bytes) → IsText text
    → length text < suc fuel
    → length text ≤ 250
    → 9 * length text + 6 * length (names text) + length before < buffer_size
    → (o : Option (Bytes × Bytes)) → Found text o
    → strtok text ≡ o
    → (print_values (suc fuel) r i is_comma text (holding before).0 (holding before).1
        ≡ holding (before ++ joined r i is_comma (names text)))
      × (length (joined r i is_comma (names text)) ≤ 9 * length text + 6 * length (names text))
unfolding print_values
Prints-suc f fuel ih i is_comma text before h more short room none (Found.nothing empty) e =
    rw (print_values, e, empty, append-nil before) (refl, omega arith)
Prints-suc {r} f fuel ih i is_comma text before h more short room (some (t, rest))
      (Found.token _ _ all some_text size clean) e =
    let (t_clean, rest_clean) = clean h in
    let count = ap length all in
    let shown : Bytes = comma is_comma ++ pair_text r i t in
    let (long, _, _) = Fits-pair_text f i t t_clean in
    let grown : length (before ++ shown) ≤ length before + 9 * length t + 6 =
      omega (arith, length-append before shown, length-comma is_comma (pair_text r i t), long) in
    let step =
      print_value_lem f i is_comma t before t_clean (omega (arith, size, short))
        (omega (arith, size, room, count)) in
    let (later, bound) =
      ih (i + 1) true rest (before ++ shown) rest_clean (omega (arith, some_text, size, more))
        (omega (arith, size, short)) (omega (arith, grown, size, room, count)) in
    rw
      (
        print_values,
        e,
        step,
        later,
        all,
        append_assoc before shown (joined r (i + 1) true (names rest)),
      )
      (
        refl,
        omega (
          arith,
          length-append shown (joined r (i + 1) true (names rest)),
          length-comma is_comma (pair_text r i t),
          long,
          bound,
          size,
          count,
        ),
      )

print_values_lem : {r : Readings} (f : InFormat r) (fuel : ℕ) → Prints r fuel
print_values_lem f zero i is_comma text before h more short room = absurd (omega arith)
print_values_lem f (suc fuel) i is_comma text before h more short room =
    Prints-suc f fuel (print_values_lem f fuel) i is_comma text before h more short room
      (strtok text) (strtok-Found text) refl

abbrev object : Readings → Bytes → Bytes
object r key = codes "{" ++ (joined r 0 false (names key) ++ codes "}")

get_data_text_lem :
    {r : Readings} (f : InFormat r) (key : Bytes)
    → IsText key
    → length key ≤ 245
    → (get_data_text r key ≡ holding (object r key)) × (length (object r key) < buffer_size)
unfolding get_data_text
get_data_text_lem {r} f key h short =
    let begun = snprintf_lem [] (codes "{") buffer_size buffer_size (omega arith) (omega arith) in
    let few = length-names key in
    let (printed, bound) =
      print_values_lem f (length key + 1) 0 false key (codes "{") h (omega arith)
        (omega (arith, short)) (omega (arith, few, short)) in
    let inside : Bytes = joined r 0 false (names key) in
    let before : Bytes = codes "{" ++ inside in
    let size : length before ≡ 1 + length inside = length-append (codes "{") inside in
    let small : length before + 20 < buffer_size = omega (arith, size, bound, few, short) in
    let left : size_left (length before) ≡ buffer_size - length before = omega (arith, small) in
    let k : ℕ = buffer_size - length before in
    let ended = snprintf_lem before (codes "}") k k (omega (arith, small)) (omega (arith, small)) in
    let total : length (before ++ codes "}") ≡ length before + 1 =
      length-append before (codes "}") in
    let rest : k - 1 ≡ buffer_size - length (before ++ codes "}") = omega (arith, total) in
    rw (begun, printed, left, ended, rest, total) (refl, omega (arith, size, total, small))

response_lem :
    (text : Bytes)
    → 0 < length text
    → length text < buffer_size
    → get_data_response (holding text) ≡ respond_with ok_200 text
response_lem text more small =
    let some_text : ltb 0 (length text) ≡ true = lt→ltb _ _ more in
    let narrow : length text % 2 ^ 16 ≡ length text = omega (arith, small) in
    rw (some_text, narrow, take-append (length text) text (zeros (buffer_size - length text)) refl)
      refl

object_lem : {r : Readings} (f : InFormat r) (key : Bytes) → object r key ≡ expected_object r key
object_lem f key = ap (λ b. codes "{" ++ (b ++ codes "}")) (joined_lem f 0 (names key))

-- Where the texts of the platform have the lengths of their formats: a body of at most 255 bytes,
-- in which cJSON finds a text of names that is at least 10 bytes shorter, is answered with one
-- pair of braces round the names and values that a table gives for the names in the request, in
-- their order, commas between them; names are what stands between commas and is not empty. Nothing
-- is cut off, and no buffer runs over. It is JSON only if no quotes are in the names and the
-- network's name.
pub get_data_handler_answers :
    {r : Readings} (f : InFormat r) (parse : Bytes → Option (Option Bytes)) (send_result : EspErr)
    (buf key : Bytes)
    → parse (c_string buf) ≡ some (some key)
    → length (c_string key) + 10 ≤ length (c_string buf)
    → length (c_string buf) ≤ 255
    → get_data_handler r parse send_result (some buf)
      ≡ (send_result, respond_with ok_200 (expected_object r (c_string key)))
unfolding get_data_handler
get_data_handler_answers {r} f parse send_result buf key parsed overhead room =
    let (written, small) =
      get_data_text_lem f (c_string key) (c_string-IsText key) (omega (arith, overhead, room)) in
    rw (get_data_handler, parsed, written)
      (ap (λ x. (send_result, x))
        (response_lem (object r (c_string key)) (omega arith) small
          ∙ ap (respond_with ok_200) (object_lem f (c_string key))))
