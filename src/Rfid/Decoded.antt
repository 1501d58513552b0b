-- ===== src/Rfid/Decoded.antt =====
-- Every eight bytes are a header of the database of components/rfid_manager/rfid_manager.c, and every 44 bytes are a
-- card: encoding what was decoded gives the bytes back.
use captive_portal_esp.Base.{
  ℕ, zero, suc, ◌+◌, ◌*◌, ◌^◌, ◌/◌, ◌%◌, ◌≤◌, ◌<◌, ◌≡◌, refl, sym, ap, ◌∙◌, get_or, [], ◌∷◌, ◌++◌,
  length, take, drop, length-take, length-drop, take_all, take-plus, drop-drop, arith,
}
use captive_portal_esp.Bytes.{Bytes, le16, le32, read16, read32}
use captive_portal_esp.Rfid.Card.{
  FitsCard, FitsDatabase, encode_card, decode_card, encode_database, decode_database, encode_cards,
  decode_cards,
}
use captive_portal_esp.Rfid.Layout.{FitsCards}

-- Each number is a byte.
abbrev pub Octets : Bytes → Type 0
Octets [] = Unit
Octets (c ∷ cs) = (c < 256) × Octets cs

Octets-drop : (n : ℕ) (b : Bytes) → Octets b → Octets (drop n b)
Octets-drop zero b h = h
Octets-drop (suc n) [] h = tt
Octets-drop (suc n) (c ∷ cs) h = Octets-drop n cs h.1

le32-read32 : (b : Bytes) → 4 ≤ length b → Octets b → le32 (read32 b) ≡ take 4 b
le32-read32 [] h o = absurd (omega arith)
le32-read32 (a ∷ []) h o = absurd (omega arith)
le32-read32 (a ∷ b ∷ []) h o = absurd (omega arith)
le32-read32 (a ∷ b ∷ c ∷ []) h o = absurd (omega arith)
le32-read32 (a ∷ b ∷ c ∷ d ∷ rest) h o =
    let n : ℕ = a + 2 ^ 8 * b + 2 ^ 16 * c + 2 ^ 24 * d in
    let first : n % 256 ≡ a = omega arith in
    let second : n / 2 ^ 8 % 256 ≡ b = omega arith in
    let third : n / 2 ^ 16 % 256 ≡ c = omega arith in
    let fourth : n / 2 ^ 24 % 256 ≡ d = omega arith in
    λ i. first i ∷ second i ∷ third i ∷ fourth i ∷ []

read32_range : (b : Bytes) → Octets b → read32 b < 2 ^ 32
read32_range [] o = omega arith
read32_range (a ∷ []) o = omega arith
read32_range (a ∷ b ∷ []) o = omega arith
read32_range (a ∷ b ∷ c ∷ []) o = omega arith
read32_range (a ∷ b ∷ c ∷ d ∷ rest) o = omega arith

le16-read16 : (b : Bytes) → 2 ≤ length b → Octets b → le16 (read16 b) ≡ take 2 b
le16-read16 [] h o = absurd (omega arith)
le16-read16 (a ∷ []) h o = absurd (omega arith)
le16-read16 (a ∷ b ∷ rest) h o =
    let n : ℕ = a + 256 * b in
    let first : n % 256 ≡ a = omega arith in
    let second : n / 256 % 256 ≡ b = omega arith in λ i. first i ∷ second i ∷ []

read16_range : (b : Bytes) → Octets b → read16 b < 2 ^ 16
read16_range [] o = omega arith
read16_range (a ∷ []) o = omega arith
read16_range (a ∷ b ∷ rest) o = omega arith

pub encode_database-decode_database :
    (b : Bytes) → length b ≡ 8 → Octets b → encode_database (decode_database b) ≡ b
unfolding encode_database decode_database
encode_database-decode_database b h o =
    let first = le16-read16 b (omega arith) o in
    let second = le16-read16 (drop 2 b) (omega (arith, length-drop 2 b)) (Octets-drop 2 b o) in
    let third = le32-read32 (drop 4 b) (omega (arith, length-drop 4 b)) (Octets-drop 4 b o) in
    (λ i. first i ++ (second i ++ third i))
    ∙ ap (λ x. take 2 b ++ (take 2 (drop 2 b) ++ take 4 x)) (sym (drop-drop 2 2 b))
    ∙ ap (λ x. take 2 b ++ x) (sym (take-plus 2 4 (drop 2 b)))
    ∙ sym (take-plus 2 6 b)
    ∙ take_all 8 b (omega arith)

pub decode_database_fits : (b : Bytes) → Octets b → FitsDatabase (decode_database b)
unfolding decode_database
decode_database_fits b o = record {
  count_range = read16_range b o;
  max_range = read16_range (drop 2 b) (Octets-drop 2 b o);
  sum_range = read32_range (drop 4 b) (Octets-drop 4 b o);
}

-- The bytes behind the first five of a card.
rest_of_card :
    (q : Bytes) → take 32 q ++ (take 3 (drop 32 q) ++ take 4 (drop 3 (drop 32 q))) ≡ take 39 q
rest_of_card q = sym (take-plus 32 7 q ∙ ap (λ x. take 32 q ++ x) (take-plus 3 4 (drop 32 q)))

pub encode_card-decode_card :
    (b : Bytes) → 44 ≤ length b → Octets b → encode_card (decode_card b) ≡ take 44 b
unfolding encode_card decode_card
encode_card-decode_card [] h o = absurd (omega arith)
encode_card-decode_card (a ∷ []) h o = absurd (omega arith)
encode_card-decode_card (a ∷ b ∷ []) h o = absurd (omega arith)
encode_card-decode_card (a ∷ b ∷ c ∷ []) h o = absurd (omega arith)
encode_card-decode_card (a ∷ b ∷ c ∷ d ∷ []) h o = absurd (omega arith)
encode_card-decode_card (a ∷ b ∷ c ∷ d ∷ e ∷ q) h o =
    let id = le32-read32 (a ∷ b ∷ c ∷ d ∷ e ∷ q) (omega arith) o in
    let s = drop 3 (drop 32 q) in
    let time =
      le32-read32 s (omega (arith, length-drop 32 q, length-drop 3 (drop 32 q)))
        (Octets-drop 3 (drop 32 q) (Octets-drop 32 q o.1.1.1.1.1)) in
    (λ i. id i ++ (e ∷ (take 32 q ++ (take 3 (drop 32 q) ++ time i))))
    ∙ ap (λ x. a ∷ b ∷ c ∷ d ∷ e ∷ x) (rest_of_card q)

get_or_range : (b : Bytes) (n : ℕ) → Octets b → get_or b n 0 < 256
get_or_range [] n o = omega arith
get_or_range (c ∷ cs) zero o = o.0
get_or_range (c ∷ cs) (suc n) o = get_or_range cs n o.1

decode_card_fits : (b : Bytes) → 44 ≤ length b → Octets b → FitsCard (decode_card b)
unfolding decode_card
decode_card_fits b h o = record {
  id_range = read32_range b o;
  active_range = get_or_range b 4 o;
  name_length = omega (arith, length-take 32 (drop 5 b), length-drop 5 b);
  padding_length =
      omega (arith, length-take 3 (drop 32 (drop 5 b)), length-drop 32 (drop 5 b), length-drop 5 b);
  time_range =
      read32_range (drop 3 (drop 32 (drop 5 b)))
        (Octets-drop 3 _ (Octets-drop 32 _ (Octets-drop 5 b o)));
}

pub length-decode_cards : (n : ℕ) (b : Bytes) → length (decode_cards n b) ≡ n
unfolding decode_cards
length-decode_cards zero b = refl
length-decode_cards (suc n) b = ap suc (length-decode_cards n (drop 44 b))

pub encode_cards-decode_cards :
    (n : ℕ) (b : Bytes)
    → n * 44 ≤ length b
    → Octets b
    → (encode_cards (decode_cards n b) ≡ take (n * 44) b) × FitsCards (decode_cards n b)
unfolding encode_cards decode_cards
encode_cards-decode_cards zero b h o = (refl, tt)
encode_cards-decode_cards (suc n) b h o =
    let size : suc n * 44 ≡ 44 + n * 44 = omega arith in
    let (rest, fits) =
      encode_cards-decode_cards n (drop 44 b) (omega (arith, length-drop 44 b))
        (Octets-drop 44 b o) in
    (
      (λ i. encode_card-decode_card b (omega arith) o i ++ rest i)
          ∙ sym (take-plus 44 (n * 44) b)
          ∙ ap (λ k. take k b) (sym size),
      (decode_card_fits b (omega arith) o, fits),
    )
