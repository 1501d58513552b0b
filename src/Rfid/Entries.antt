-- ===== src/Rfid/Entries.antt =====
-- The loop of `rfid_manager_get_card_list_json` of components/rfid_manager/rfid_manager.c: it prints the
-- longest start of the list that it lets into the buffer.
use mathlib.Core.List.{append-nil, append_assoc}
use captive_portal_esp.Base.{
  ℕ, ◌+◌, ◌-◌, ◌*◌, ◌%◌, ◌^◌, ◌≤◌, ◌<◌, ◌≡◌, refl, sym, ap, Bool, true, false, List, [], ◌∷◌, ◌++◌,
  if◌then◌else◌, ltb, ltb→lt, ◌==◌, length, length-append, Bool-cases, inl, inr, arith,
}
use captive_portal_esp.Bytes.{Bytes, c_string, codes, le32}
use captive_portal_esp.Text.{snprintf_lem, decimal, zeros, length-digits, length-decimal_byte}
use captive_portal_esp.Esp.{EspErr, esp_ok, no_mem}
use captive_portal_esp.Rfid.Card.{Card, FitsCard, encode_cards}
use captive_portal_esp.Rfid.Layout.{FitsCards}
use captive_portal_esp.Rfid.Json.{opening, entry, room_left, print_cards}

-- A NUL ends every name within its array.
abbrev pub Terminated : List Card → Type 0
Terminated [] = Unit
Terminated (c ∷ cs) = (length (c_string c.name) < 32) × Terminated cs

abbrev pub card_text : Bool → Card → Bytes
card_text is_comma c =
    (if is_comma then codes "," else [])
    ++ (codes "{\"id\":"
        ++ (decimal c.card_id
            ++ (codes ",\"name\":\""
                ++ (c_string c.name
                    ++ (codes "\",\"active\":"
                        ++ (decimal c.active
                            ++ (codes ",\"timestamp\":" ++ (decimal c.timestamp ++ codes "}"))))))))

-- The cards' texts, with commas between them.
unfoldable pub entries : Bool → List Card → Bytes
entries is_comma [] = []
entries is_comma (c ∷ cs) = card_text is_comma c ++ entries true cs

unfoldable pub list_text : ℕ → List Card → Bytes
list_text count shown = (opening count ++ entries false shown) ++ codes "]}"

-- What is answered when these cards did not fit.
abbrev pub complete : List Card → EspErr
complete [] = esp_ok
complete (c ∷ cs) = no_mem

c_string-append : (b r : Bytes) → length (c_string b) < length b → c_string (b ++ r) ≡ c_string b
c_string-append [] r h = absurd (omega arith)
c_string-append (c ∷ b) r h = elim (Bool-cases (c == 0)) [
  | inl nul ↦ rw nul refl
  | inr more ↦ rw more (ap (◌∷◌ c) (c_string-append b r (let k = rw more at h in omega (arith, k))))
]

entry_lem :
    (is_comma : Bool) (c : Card) (behind : Bytes)
    → FitsCard c
    → length (c_string c.name) < 32
    → entry is_comma c behind ≡ card_text is_comma c
unfolding entry
entry_lem is_comma c behind fits ends =
    rw
      (c_string-append c.name (c.padding ++ (le32 c.timestamp ++ behind))
        (omega (arith, fits.name_length)))
      refl

length-card_text :
    (is_comma : Bool) (c : Card)
    → FitsCard c
    → length (c_string c.name) < 32
    → length (card_text is_comma c) ≤ 95
length-card_text true c fits ends = simp length-append (
    omega (
      arith,
      length-digits 10 c.card_id,
      length-decimal_byte c.active fits.active_range,
      length-digits 10 c.timestamp,
    ))
length-card_text false c fits ends = simp length-append (
    omega (
      arith,
      length-digits 10 c.card_id,
      length-decimal_byte c.active fits.active_range,
      length-digits 10 c.timestamp,
    ))

pub record Printed (max : ℕ) (before : Bytes) (is_comma : Bool) (cards : List Card)
    (out : EspErr × (ℕ × Bytes)) : Type 0 where
  pub shown : List Card
  pub hidden : List Card
  pub split : cards ≡ shown ++ hidden
  pub result : out.0 ≡ complete hidden
  pub len : out.1.0 ≡ length (before ++ entries is_comma shown)
  pub fits : length (before ++ entries is_comma shown) + 6 ≤ max
  pub buffer :
      out.1.1
      ≡ (before ++ entries is_comma shown)
        ++ zeros (max - length (before ++ entries is_comma shown))
  pub all : length before + 95 * length cards + 6 ≤ max → hidden ≡ []

pub print_cards-Printed :
    (max : ℕ) (cards : List Card) (is_comma : Bool) (before : Bytes)
    → FitsCards cards
    → Terminated cards
    → max < 2 ^ 16
    → length before + 6 ≤ max
    → Printed max before is_comma cards
        (print_cards max cards is_comma (length before) (before ++ zeros (max - length before)))
unfolding print_cards entries
print_cards-Printed max [] is_comma before fits ends small room = record {
  shown = [];
  hidden = [];
  split = refl;
  result = refl;
  len = ap length (sym (append-nil before));
  fits = rw (append-nil before) room;
  buffer = rw (append-nil before) refl;
  all = λ h. refl;
}
print_cards-Printed max (c ∷ cs) is_comma before fits ends small room =
    elim (Bool-cases (ltb (length before + 100) max)) [
      | inr full ↦ rw full (record {
        shown = [];
        hidden = c ∷ cs;
        split = refl;
        result = refl;
        len = ap length (sym (append-nil before));
        fits = rw (append-nil before) room;
        buffer = rw (append-nil before) refl;
        all = λ h. absurd (ground arith);
      })
      | inl enough ↦
          let text = card_text is_comma c in
          let size = length-card_text is_comma c fits.0 ends.0 in
          let space = ltb→lt (length before + 100) max enough in
          let room_is : room_left max (length before) ≡ max - length before = omega arith in
          let put =
            snprintf_lem before text (max - length before) (max - length before) (omega arith)
              (omega arith) in
          let longer = length-append before text in
          let left : max - length before - length text ≡ max - length (before ++ text) =
            omega arith in
          let next : (length before + length text) % 2 ^ 16 ≡ length (before ++ text) =
            omega arith in
          let p =
            print_cards-Printed max cs true (before ++ text) fits.1 ends.1 small (omega arith) in
          let regroup = append_assoc before text (entries true p.shown) in
          rw
            (enough, entry_lem is_comma c (encode_cards cs) fits.0 ends.0, room_is, put, left, next)
            (record {
              shown = c ∷ p.shown;
              hidden = p.hidden;
              split = ap (◌∷◌ c) p.split;
              result = p.result;
              len = rw regroup at p.len;
              fits = rw regroup at p.fits;
              buffer = rw regroup at p.buffer;
              all = λ h. p.all (omega (arith, h));
            })
    ]
