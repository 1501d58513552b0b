-- ===== src/Server/GetData/Values.antt =====
-- The answers to single names of components/app_local_server/app_local_server.c: how long they are.
use captive_portal_esp.Base.{
  ℕ, ◌+◌, ◌%◌, ◌*◌, ◌≤◌, ◌<◌, ◌≡◌, refl, [], ◌++◌, if◌then◌else◌, length, length-append, arith,
  Bool-cases, inl, inr,
}
use captive_portal_esp.Bytes.{Bytes, codes, c_string}
use captive_portal_esp.Server.Times.{
  Tm, InRange, time_string, c_string-time_string, length-date_text, IsText-date_text,
}
use captive_portal_esp.Text.{decimal, length-decimal_byte}
use captive_portal_esp.Server.GetData.{Readings, contains, quoted, pair_text}
use captive_portal_esp.CString.{IsText, IsText-append, IsText-digits}
use captive_portal_esp.Server.GetData.Texts.{contains-length}

-- The texts of the platform have the lengths that their formats allow, and no NUL; the times have four digits
-- for the year.
pub record InFormat (r : Readings) : Type 0 where
  pub ssid_length : length r.ssid ≤ 32
  pub ssid_text : IsText r.ssid
  pub utc_range : (i : ℕ) → InRange (r.utc_time i)
  pub local_range : (i : ℕ) → InRange (r.local_time i)
  pub compile_time_length : length r.compile_time ≤ 8
  pub compile_time_text : IsText r.compile_time
  pub compile_date_length : length r.compile_date ≤ 11
  pub compile_date_text : IsText r.compile_date
  pub wifi_status_range : (i : ℕ) → r.wifi_connect_status i < 256

-- An answer to a name of `n` bytes, which an array of 256 bytes has room for.
abbrev pub Fits : ℕ → Bytes → Type 0
Fits n text = (length text ≤ 9 * n + 5) × (n ≤ 250 → length text < 256) × IsText text

length-quoted : (name value : Bytes) → length (quoted name value) ≡ length name + length value + 5
length-quoted name value = omega (
  arith,
  length-append name (codes "\":\"" ++ (value ++ codes "\"")),
  length-append value (codes "\""),
)

IsText-quoted : (name value : Bytes) → IsText name → IsText value → IsText (quoted name value)
IsText-quoted name value h k =
    IsText-append (codes "\"") _ refl
      (IsText-append name _ h (IsText-append (codes "\":\"") _ refl (IsText-append value _ k refl)))

Fits-if :
    (part key value rest : Bytes)
    → IsText part
    → IsText value
    → (length part + length value ≤ 9 * length part) × (length part + length value ≤ 36)
    → Fits (length key) rest
    → Fits (length key) (if contains part key then quoted part value else rest)
Fits-if part key value rest h k (size, short) other = elim (Bool-cases (contains part key)) [
  | inl there ↦ rw there (
    omega (arith, length-quoted part value, contains-length part key there, size),
    (λ _. omega (arith, length-quoted part value, short)),
    IsText-quoted part value h k,
  )
  | inr absent ↦ rw absent other
]

decimal_short : (n : ℕ) → length (decimal (n % 100)) ≤ 3
decimal_short n = length-decimal_byte (n % 100) (omega arith)

time_shown :
    (t : Tm) (stale : Bytes)
    → InRange t
    → (length (c_string (time_string t stale 20)) ≡ 19) × IsText (c_string (time_string t stale 20))
time_shown t stale h =
    rw (c_string-time_string stale 20 h (omega arith)) (length-date_text h, IsText-date_text t)

pub Fits-pair_text :
    {r : Readings} (f : InFormat r) (i : ℕ) (key : Bytes)
    → IsText key
    → Fits (length key) (pair_text r i key)
unfolding pair_text
Fits-pair_text {r} f i key h =
    let rand : ℕ = r.rand i in
    let reading = decimal_short rand in
    let utc = time_shown (r.utc_time i) (r.stale i) (f.utc_range i) in
    let local = time_shown (r.local_time i) (r.stale i) (f.local_range i) in
    Fits-if (codes "SSID") key _ _ refl f.ssid_text (omega (arith, f.ssid_length)) (
      Fits-if (codes "Temp") key _ _ refl (IsText-digits 10 (rand % 100)) (omega (arith, reading)) (
        Fits-if (codes "Humidity") key _ _ refl (IsText-digits 10 (rand % 100))
          (omega (arith, reading))
          (Fits-if (codes "UTC") key _ _ refl utc.1 (omega (arith, utc.0)) (
            Fits-if (codes "Local") key _ _ refl local.1 (omega (arith, local.0)) (
              Fits-if (codes "CompileTime") key _ _ refl f.compile_time_text
                (omega (arith, f.compile_time_length))
                (Fits-if (codes "CompileDate") key _ _ refl f.compile_date_text
                  (omega (arith, f.compile_date_length))
                  (Fits-if (codes "FirmwareVersion") key (codes "V1.0.0") _ refl refl (omega arith)
                    (Fits-if (codes "WiFiStatus") key _ _ refl
                      (IsText-digits 10 (r.wifi_connect_status i))
                      (omega (
                        arith,
                        length-decimal_byte (r.wifi_connect_status i) (f.wifi_status_range i),
                      ))
                      (
                        omega (arith, length-quoted key []),
                        (λ small. omega (arith, length-quoted key [])),
                        IsText-quoted key [] h refl,
                      )))))))))
