-- ===== src/Bytes.antt =====
-- Bytes, little-endian fields of C structures and C strings. A byte is a number below 256.
use Prim.Native.Char.{code}
use Prim.Native.String.{String}
use captive_portal_esp.Base.{
  ℕ, ◌+◌, ◌*◌, ◌/◌, ◌%◌, ◌^◌, ◌<◌, ◌≡◌, List, [], ◌∷◌, ◌==◌, if◌then◌else◌, get_or, arith,
}

abbrev pub Bytes : Type 0
Bytes = List ℕ

-- A `uint16_t` and a `uint32_t` in memory.
abbrev pub le16 : ℕ → Bytes
le16 n = n % 256 ∷ n / 256 % 256 ∷ []

abbrev pub le32 : ℕ → Bytes
le32 n = n % 256 ∷ n / 2 ^ 8 % 256 ∷ n / 2 ^ 16 % 256 ∷ n / 2 ^ 24 % 256 ∷ []

abbrev pub read16 : Bytes → ℕ
read16 b = get_or b 0 0 + 256 * get_or b 1 0

abbrev pub read32 : Bytes → ℕ
read32 b = get_or b 0 0 + 2 ^ 8 * get_or b 1 0 + 2 ^ 16 * get_or b 2 0 + 2 ^ 24 * get_or b 3 0

pub read16-le16 : (n : ℕ) → n < 2 ^ 16 → n % 256 + 256 * (n / 256 % 256) ≡ n
read16-le16 n h = omega arith

pub read32-le32 :
    (n : ℕ)
    → n < 2 ^ 32
    → n % 256
        + 2 ^ 8 * (n / 2 ^ 8 % 256)
        + 2 ^ 16 * (n / 2 ^ 16 % 256)
        + 2 ^ 24 * (n / 2 ^ 24 % 256)
      ≡ n
read32-le32 n h = omega arith

-- The text before the first NUL.
abbrev pub c_string : Bytes → Bytes
c_string [] = []
c_string (c ∷ cs) = if c == 0 then [] else c ∷ c_string cs

-- The code points of a text: its bytes, if it is ASCII.
abbrev pub codes : String → Bytes
codes String.[] = []
codes (String.◌∷◌ c s) = code c ∷ codes s
