-- ===== src/Server/Times.antt =====
-- `get_local_time_string` and `get_local_time_string_utc` of components/app_local_server/app_local_server.c. What
-- `localtime_r` and `gmtime_r` make of the time is an argument.
use mathlib.Core.List.{append-nil}
use captive_portal_esp.Base.{
  ℕ, ◌+◌, ◌/◌, ◌%◌, ◌<◌, ◌≤◌, ◌≡◌, refl, ◌∙◌, true, [], ◌∷◌, ◌++◌, ltb, lt→ltb, if◌then◌else◌,
  length, drop, length-append, arith,
}
use captive_portal_esp.Bytes.{Bytes, c_string, codes}
use captive_portal_esp.Text.{decimal, digits}
use captive_portal_esp.CString.{IsText, IsText-append, IsText-cons, IsText-digits, c_string-append}

-- `struct tm`: `tm_year` counts from 1900, and `tm_mon` from 0.
pub record Tm : Type 0 where
  pub tm_year : ℕ
  pub tm_mon : ℕ
  pub tm_mday : ℕ
  pub tm_hour : ℕ
  pub tm_min : ℕ
  pub tm_sec : ℕ

-- `%m`, `%d`, `%H`, `%M` and `%S`
abbrev pub two_digits : ℕ → Bytes
two_digits n = (48 + n / 10) ∷ (48 + n % 10) ∷ []

-- What `strftime` makes of "%Y-%m-%d %H:%M:%S".
unfoldable pub date_text : Tm → Bytes
date_text t =
    decimal (1900 + t.tm_year)
    ++ (codes "-"
        ++ (two_digits (t.tm_mon + 1)
            ++ (codes "-"
                ++ (two_digits t.tm_mday
                    ++ (codes " "
                        ++ (two_digits t.tm_hour
                            ++ (codes ":"
                                ++ (two_digits t.tm_min
                                    ++ (codes ":" ++ two_digits t.tm_sec)))))))))

-- `time_str`, an array of `len` bytes, behind the call. `stale` is what it then holds if the text and its NUL
-- have no room, where `strftime` promises nothing.
unfoldable pub time_string : Tm → Bytes → ℕ → Bytes
time_string t stale len =
    if ltb (length (date_text t)) len
    then date_text t ++ (0 ∷ drop (length (date_text t) + 1) stale)
    else stale

-- The fields are in the ranges that `localtime_r` and `gmtime_r` promise, and the year has four digits.
pub record InRange (t : Tm) : Type 0 where
  pub year_range : 1900 + t.tm_year < 10000
  pub mon_range : t.tm_mon < 12
  pub mday_range : t.tm_mday < 32
  pub hour_range : t.tm_hour < 24
  pub min_range : t.tm_min < 60
  pub sec_range : t.tm_sec < 61

length-decimal_year : (n : ℕ) → 1000 ≤ n → n < 10000 → length (decimal n) ≡ 4
unfolding digits
length-decimal_year n h k = ground arith

pub length-date_text : {t : Tm} → InRange t → length (date_text t) ≡ 19
unfolding date_text
length-date_text {t} r = omega (
  arith,
  length-append (decimal (1900 + t.tm_year)) _,
  length-decimal_year (1900 + t.tm_year) (omega arith) r.year_range,
)

IsText-two_digits : (n : ℕ) → IsText (two_digits n)
IsText-two_digits n =
    IsText-cons (48 + n / 10) _ (ground arith) (IsText-cons (48 + n % 10) [] (ground arith) refl)

pub IsText-date_text : (t : Tm) → IsText (date_text t)
unfolding date_text
IsText-date_text t = IsText-append (decimal (1900 + t.tm_year)) _ (IsText-digits 10 _) (
    IsText-append (codes "-") _ refl (
      IsText-append (two_digits (t.tm_mon + 1)) _ (IsText-two_digits _) (
        IsText-append (codes "-") _ refl (
          IsText-append (two_digits t.tm_mday) _ (IsText-two_digits _) (
            IsText-append (codes " ") _ refl (
              IsText-append (two_digits t.tm_hour) _ (IsText-two_digits _) (
                IsText-append (codes ":") _ refl (
                  IsText-append (two_digits t.tm_min) _ (IsText-two_digits _)
                    (IsText-append (codes ":") _ refl (IsText-two_digits t.tm_sec))))))))))

-- An array of 20 bytes has room.
pub c_string-time_string :
    {t : Tm} (stale : Bytes) (len : ℕ)
    → InRange t
    → 19 < len
    → c_string (time_string t stale len) ≡ date_text t
unfolding time_string
c_string-time_string {t} stale len r room =
    let fits : ltb (length (date_text t)) len ≡ true =
      lt→ltb _ _ (omega (arith, length-date_text r)) in
    rw fits (c_string-append (date_text t) _ (IsText-date_text t) ∙ append-nil (date_text t))
