-- ===== src/Server/BlankLine.antt =====
-- What `strstr` of components/app_local_server/app_local_server.c finds in the first bytes of a firmware update.
use captive_portal_esp.Base.{
  ℕ, zero, suc, ◌+◌, ◌≤◌, ◌≡◌, ◌≢◌, refl, ap, true, some, [], ◌∷◌, ◌++◌, ◌==◌, length, take, drop,
  take_nil, drop_nil, length-take, length-drop, Bool-cases, inl, inr, arith,
}
use captive_portal_esp.Bytes.{Bytes, c_string}
use captive_portal_esp.Server.Ota.{is_blank_line, find_blank_line}

-- The four bytes from the `k`-th on are the ends of two lines.
abbrev pub BlankAt : ℕ → Bytes → Type 0
BlankAt k t = take 4 (drop k t) ≡ 13 ∷ 10 ∷ 13 ∷ 10 ∷ []

-- No NUL stands before a blank line in these bytes.
abbrev pub NoBlankLine : Bytes → Type 0
NoBlankLine piece = (k : ℕ) → take 4 (drop k (c_string piece)) ≢ 13 ∷ 10 ∷ 13 ∷ 10 ∷ []

is_blank_line_lem : (t : Bytes) → BlankAt 0 t → is_blank_line t ≡ true
is_blank_line_lem [] e = ap is_blank_line e
is_blank_line_lem (a ∷ []) e = ap is_blank_line e
is_blank_line_lem (a ∷ b ∷ []) e = ap is_blank_line e
is_blank_line_lem (a ∷ b ∷ c ∷ []) e = ap is_blank_line e
is_blank_line_lem (a ∷ b ∷ c ∷ d ∷ cs) e = ap is_blank_line e

-- The first blank line is found.
find_blank_line_first :
    (t : Bytes) (offset k : ℕ)
    → BlankAt k t
    → (found : ℕ) × (find_blank_line t offset ≡ some found) × (found ≤ offset + k)
unfolding find_blank_line
find_blank_line_first [] offset k e = cc (rw (drop_nil k, take_nil 4) at e)
find_blank_line_first (c ∷ cs) offset zero e =
    rw (is_blank_line_lem (c ∷ cs) e) (offset, refl, omega arith)
find_blank_line_first (c ∷ cs) offset (suc k) e = elim (Bool-cases (is_blank_line (c ∷ cs))) [
  | inl here ↦ rw here (offset, refl, omega arith)
  | inr further ↦
      let (found, there, early) = find_blank_line_first cs (offset + 1) k e in
      rw (further, there) (found, refl, omega (arith, early))
]

BlankAt-append : (k : ℕ) (t s : Bytes) → BlankAt k t → BlankAt k (t ++ s)
BlankAt-append zero [] s e = cc e
BlankAt-append zero (a ∷ []) s e = absurd (omega (arith, ap length e))
BlankAt-append zero (a ∷ b ∷ []) s e = absurd (omega (arith, ap length e))
BlankAt-append zero (a ∷ b ∷ c ∷ []) s e = absurd (omega (arith, ap length e))
BlankAt-append zero (a ∷ b ∷ c ∷ d ∷ cs) s e = e
BlankAt-append (suc k) [] s e = cc e
BlankAt-append (suc k) (c ∷ t) s e = BlankAt-append k t s e

BlankAt-length : (k : ℕ) (t : Bytes) → BlankAt k t → k + 4 ≤ length t
BlankAt-length k t e =
    let size : length (take 4 (drop k t)) ≡ 4 = ap length e in
    omega (arith, size, length-take 4 (drop k t), length-drop k t)

c_string-prefix : (t s : Bytes) → (rest : Bytes) × (c_string (t ++ s) ≡ c_string t ++ rest)
c_string-prefix [] s = (c_string s, refl)
c_string-prefix (c ∷ t) s = elim (Bool-cases (c == 0)) [
  | inl nul ↦ rw nul ([], refl)
  | inr other ↦ let (rest, e) = c_string-prefix t s in rw other (rest, ap (◌∷◌ c) e)
]

length-c_string : (t : Bytes) → length (c_string t) ≤ length t
length-c_string [] = omega arith
length-c_string (c ∷ t) = elim (Bool-cases (c == 0)) [
  | inl nul ↦ rw nul (omega arith)
  | inr other ↦ rw other (omega (arith, length-c_string t))
]

-- A blank line among the first bytes is found among them, whatever stands behind them.
pub find_blank_line_inside :
    (piece stale : Bytes) (k : ℕ)
    → BlankAt k (c_string piece)
    → (found : ℕ) × (find_blank_line (c_string (piece ++ stale)) 0 ≡ some found)
      × (found + 4 ≤ length piece)
find_blank_line_inside piece stale k e =
    let (rest, same) = c_string-prefix piece stale in
    let blank : BlankAt k (c_string (piece ++ stale)) =
      rw same (BlankAt-append k (c_string piece) rest e) in
    let (found, there, early) = find_blank_line_first (c_string (piece ++ stale)) 0 k blank in
    (found, there, omega (arith, early, BlankAt-length k (c_string piece) e, length-c_string piece))
