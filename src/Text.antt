-- ===== src/Text.antt =====
-- Writing text into a buffer as `snprintf` does, and numbers in decimal.
use mathlib.Core.List.{append_assoc}
use captive_portal_esp.Base.{
  ℕ, zero, suc, ◌+◌, ◌-◌, ◌/◌, ◌%◌, ◌^◌, ◌≤◌, ◌<◌, ◌≡◌, refl, ◌∙◌, [], ◌∷◌, ◌++◌, ltb, ◌==◌,
  if◌then◌else◌, length, take, drop, replicate, take_all, take-append, length-append, false,
  Bool-cases, inl, inr, arith,
}
use captive_portal_esp.Bytes.{Bytes}

-- A write at an offset, which makes a buffer longer if it runs over the end.
abbrev pub put : Bytes → ℕ → Bytes → Bytes
put buffer offset text = take offset buffer ++ (text ++ drop (offset + length text) buffer)

-- `snprintf(buffer + offset, room, ...)` of `text`: the buffer and the number returned.
unfoldable pub snprintf : Bytes → ℕ → ℕ → Bytes → Bytes × ℕ
snprintf buffer offset room text =
    if room == 0
    then (buffer, length text)
    else (put buffer offset (take (room - 1) text ++ 0 ∷ []), length text)

-- The last `fuel` digits at most; ten are enough for a `uint32_t`.
unfoldable pub digits : ℕ → ℕ → Bytes
digits zero n = []
digits (suc fuel) n =
    if ltb n 10 then (48 + n) ∷ [] else digits fuel (n / 10) ++ ((48 + n % 10) ∷ [])

-- `%u`, `%lu` and `%d` of a number in the range of a `uint32_t`
abbrev pub decimal : ℕ → Bytes
decimal n = digits 10 n

pub length-digits : (fuel n : ℕ) → length (digits fuel n) ≤ fuel
unfolding digits
length-digits zero n = omega arith
length-digits (suc fuel) n = elim (Bool-cases (ltb n 10)) [
  | inl small ↦ rw small (omega arith)
  | inr big ↦ rw big (
      omega (
        arith,
        length-append {0} (digits fuel (n / 10)) ((48 + n % 10) ∷ []),
        length-digits fuel (n / 10),
      ))
]

pub length-decimal_byte : (n : ℕ) → n < 256 → length (decimal n) ≤ 3
unfolding digits
length-decimal_byte n h = ground arith

pub length-decimal_word : (n : ℕ) → n < 2 ^ 16 → length (decimal n) ≤ 5
unfolding digits
length-decimal_word n h = ground arith

abbrev pub zeros : ℕ → Bytes
zeros n = replicate n 0

pub drop-zeros : (n k : ℕ) → drop n (zeros k) ≡ zeros (k - n)
drop-zeros zero k = let same : k - 0 ≡ k = omega arith in rw same refl
drop-zeros (suc n) zero = let none_left : 0 - suc n ≡ 0 = omega arith in rw none_left refl
drop-zeros (suc n) (suc k) =
    let less : suc k - suc n ≡ k - n = omega arith in rw less (drop-zeros n k)

pub drop_past : (t s : Bytes) (n : ℕ) → drop (length t + n) (t ++ s) ≡ drop n s
drop_past [] s n = let same : 0 + n ≡ n = omega arith in rw same refl
drop_past (c ∷ t) s n =
    let same : suc (length t) + n ≡ suc (length t + n) = omega arith in rw same (drop_past t s n)

zeros_after : (k : ℕ) → 0 < k → 0 ∷ zeros (k - 1) ≡ zeros k
zeros_after zero h = absurd (omega arith)
zeros_after (suc k) h = let less : suc k - 1 ≡ k = omega arith in rw less refl

-- Text behind text, into zeros that have room for it and its NUL: zeros follow.
pub snprintf_lem :
    (before text : Bytes) (k room : ℕ)
    → length text < k
    → length text < room
    → snprintf (before ++ zeros k) (length before) room text
      ≡ ((before ++ text) ++ zeros (k - length text), length text)
unfolding snprintf
snprintf_lem before text k room h g =
    let some_room : (room == 0) ≡ false = ground arith in
    let whole : take (room - 1) text ≡ text = take_all (room - 1) text (omega arith) in
    let kept : take (length before) (before ++ zeros k) ≡ before =
      take-append (length before) before (zeros k) refl in
    let nul : Bytes = 0 ∷ [] in
    let size : length (text ++ nul) ≡ length text + 1 = length-append text nul in
    let rest : drop (length before + (length text + 1)) (before ++ zeros k)
        ≡ zeros (k - (length text + 1)) =
      drop_past before (zeros k) (length text + 1) ∙ drop-zeros (length text + 1) k in
    let less : k - (length text + 1) ≡ k - length text - 1 = omega arith in
    let zero_more : 0 ∷ zeros (k - length text - 1) ≡ zeros (k - length text) =
      zeros_after (k - length text) (omega arith) in
    rw
      (
        some_room,
        whole,
        kept,
        size,
        rest,
        less,
        append_assoc text nul (zeros (k - length text - 1)),
        zero_more,
        append_assoc before text (zeros (k - length text)),
      )
      refl
