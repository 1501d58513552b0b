-- ===== src/CString.antt =====
-- C strings: texts with no NUL in them, and what a `%s` or a `strncpy` takes from an array.
use mathlib.Core.List.{append-nil}
use captive_portal_esp.Base.{
  ℕ, zero, suc, ◌+◌, ◌-◌, ◌%◌, ◌/◌, ◌<◌, ◌≡◌, refl, ap, ◌∙◌, false, [], ◌∷◌, ◌++◌, ◌==◌, ltb,
  length, drop, arith, Bool-cases, inl, inr,
}
use captive_portal_esp.Bytes.{Bytes, c_string}
use captive_portal_esp.Text.{digits, zeros, snprintf, snprintf_lem}

-- No NUL is in the text.
abbrev pub IsText : Bytes → Type 0
IsText t = c_string t ≡ t

pub IsText-tail : (c : ℕ) (t : Bytes) → IsText (c ∷ t) → ((c == 0) ≡ false) × IsText t
IsText-tail c t h = elim (Bool-cases (c == 0)) [
  | inl nul ↦ let e : [] ≡ c ∷ t = (rw nul at h) in cc e
  | inr other ↦ (other, ap (drop 1) (let e : c ∷ c_string t ≡ c ∷ t = (rw other at h) in e))
]

pub c_string-IsText : (b : Bytes) → IsText (c_string b)
c_string-IsText [] = refl
c_string-IsText (c ∷ cs) = elim (Bool-cases (c == 0)) [
  | inl nul ↦ rw nul refl
  | inr other ↦ rw (other, other) (ap (◌∷◌ c) (c_string-IsText cs))
]

pub c_string-append : (s t : Bytes) → IsText s → c_string (s ++ t) ≡ s ++ c_string t
c_string-append [] t h = refl
c_string-append (c ∷ s) t h =
    let (other, tail) = IsText-tail c s h in rw other (ap (◌∷◌ c) (c_string-append s t tail))

pub IsText-append : (s t : Bytes) → IsText s → IsText t → IsText (s ++ t)
IsText-append s t h k = c_string-append s t h ∙ ap (◌++◌ s) k

pub IsText-cons : (c : ℕ) (t : Bytes) → (c == 0) ≡ false → IsText t → IsText (c ∷ t)
IsText-cons c t other h = rw other (ap (◌∷◌ c) h)

pub IsText-digits : (fuel n : ℕ) → IsText (digits fuel n)
unfolding digits
IsText-digits zero n = refl
IsText-digits (suc fuel) n = elim (Bool-cases (ltb n 10)) [
  | inl small ↦ rw small (IsText-cons (48 + n) [] (ground arith) refl)
  | inr big ↦ rw big (
      IsText-append (digits fuel (n / 10)) _ (IsText-digits fuel (n / 10))
        (IsText-cons (48 + n % 10) [] (ground arith) refl))
]

-- What a `%s` prints of a buffer that a text was printed into.
pub c_string-snprintf :
    (size : ℕ) (text : Bytes)
    → IsText text
    → length text < size
    → c_string (snprintf (zeros size) 0 size text).0 ≡ text
c_string-snprintf size text h room =
    let printed = snprintf_lem [] text size size room room in
    let k = size - length text - 1 in
    let more : size - length text ≡ suc k = omega arith in
    ap (λ x. c_string x.0) printed
    ∙ rw more (c_string-append text (zeros (suc k)) h ∙ append-nil text)
