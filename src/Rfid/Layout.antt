-- ===== src/Rfid/Layout.antt =====
-- The files' layout can be read back: encoding, then decoding, gives the same value.
use mathlib.Core.List.{append_assoc}
use captive_portal_esp.Base.{
  ◌*◌, ◌≡◌, refl, List, [], ◌∷◌, ◌++◌, length, take-append, drop-append, length-append, arith,
}
use captive_portal_esp.Bytes.{Bytes, read16-le16, read32-le32}
use captive_portal_esp.Rfid.Card.{
  Card, Database, FitsCard, FitsDatabase, encode_card, decode_card, encode_database,
  decode_database, encode_cards, decode_cards,
}

abbrev pub FitsCards : List Card → Type 0
FitsCards [] = Unit
FitsCards (c ∷ cs) = FitsCard c × FitsCards cs

pub length-encode_card : (c : Card) → FitsCard c → length (encode_card c) ≡ 44
unfolding encode_card
length-encode_card c h = omega (arith, length-append {0} c.name, length-append {0} c.padding)

pub length-encode_database : (d : Database) → length (encode_database d) ≡ 8
unfolding encode_database
length-encode_database d = refl

pub length-encode_cards :
    (cs : List Card) → FitsCards cs → length (encode_cards cs) ≡ length cs * 44
unfolding encode_cards
length-encode_cards [] h = omega arith
length-encode_cards (c ∷ cs) h = omega (
  arith,
  length-append (encode_card c) (encode_cards cs),
  length-encode_card c h.0,
  length-encode_cards cs h.1,
)

pub decode_database-encode_database :
    (d : Database) → FitsDatabase d → decode_database (encode_database d) ≡ d
unfolding decode_database encode_database
decode_database-encode_database d h = λ i. record {
  card_count = read16-le16 d.card_count h.count_range i;
  max_cards = read16-le16 d.max_cards h.max_range i;
  checksum = read32-le32 d.checksum h.sum_range i;
}

-- Whatever stands behind the card.
pub decode_card-encode_card :
    (c : Card) (rest : Bytes) → FitsCard c → decode_card (encode_card c ++ rest) ≡ c
unfolding decode_card encode_card
decode_card-encode_card c rest h =
    rw (append_assoc, append_assoc)
      (rw
        (
          take-append 32 c.name _ h.name_length,
          drop-append 32 c.name _ h.name_length,
          take-append 3 c.padding _ h.padding_length,
          drop-append 3 c.padding _ h.padding_length,
        )
        (λ i. record c {
          card_id = read32-le32 c.card_id h.id_range i;
          timestamp = read32-le32 c.timestamp h.time_range i;
        }))

pub decode_cards-encode_cards :
    (cs : List Card) (rest : Bytes)
    → FitsCards cs
    → decode_cards (length cs) (encode_cards cs ++ rest) ≡ cs
unfolding decode_cards encode_cards
decode_cards-encode_cards [] rest h = refl
decode_cards-encode_cards (c ∷ cs) rest h = rw append_assoc (
    rw (
      decode_card-encode_card c (encode_cards cs ++ rest) h.0,
      drop-append 44 (encode_card c) (encode_cards cs ++ rest) (length-encode_card c h.0),
      decode_cards-encode_cards cs rest h.1,
    ))

pub encode_cards-append :
    (cs ds : List Card) → encode_cards (cs ++ ds) ≡ encode_cards cs ++ encode_cards ds
unfolding encode_cards
encode_cards-append [] ds = refl
encode_cards-append (c ∷ cs) ds = rw (encode_cards-append cs ds, append_assoc)
