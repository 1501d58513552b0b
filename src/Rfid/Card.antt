-- ===== src/Rfid/Card.antt =====
-- `rfid_card_t` of components/rfid_manager/include/rfid_manager.h and `rfid_database_t` of
-- components/rfid_manager/rfid_manager.c, and the bytes in which the files hold them.
use captive_portal_esp.Base.{
  ℕ, zero, suc, ◌<◌, ◌^◌, ◌≡◌, List, [], ◌∷◌, ◌++◌, get_or, length, take, drop,
}
use captive_portal_esp.Bytes.{Bytes, le16, le32, read16, read32}

-- The compiler puts three bytes between `name` and `timestamp`; nobody sets them.
pub record Card : Type 0 where
  pub card_id : ℕ
  pub active : ℕ
  pub name : Bytes
  pub padding : Bytes
  pub timestamp : ℕ

pub record Database : Type 0 where
  pub card_count : ℕ
  pub max_cards : ℕ
  pub checksum : ℕ

-- `sizeof(rfid_card_t)` and `sizeof(rfid_database_t)`
abbrev pub card_size : ℕ
card_size = 44

abbrev pub database_size : ℕ
database_size = 8

-- The fields are in the range of their C types.
pub record FitsCard (c : Card) : Type 0 where
  pub id_range : c.card_id < 2 ^ 32
  pub active_range : c.active < 2 ^ 8
  pub name_length : length c.name ≡ 32
  pub padding_length : length c.padding ≡ 3
  pub time_range : c.timestamp < 2 ^ 32

pub record FitsDatabase (d : Database) : Type 0 where
  pub count_range : d.card_count < 2 ^ 16
  pub max_range : d.max_cards < 2 ^ 16
  pub sum_range : d.checksum < 2 ^ 32

unfoldable pub encode_card : Card → Bytes
encode_card c = le32 c.card_id ++ (c.active ∷ (c.name ++ (c.padding ++ le32 c.timestamp)))

unfoldable pub decode_card : Bytes → Card
decode_card b = record {
  card_id = read32 b;
  active = get_or b 4 0;
  name = take 32 (drop 5 b);
  padding = take 3 (drop 32 (drop 5 b));
  timestamp = read32 (drop 3 (drop 32 (drop 5 b)));
}

unfoldable pub encode_database : Database → Bytes
encode_database d = le16 d.card_count ++ (le16 d.max_cards ++ le32 d.checksum)

unfoldable pub decode_database : Bytes → Database
decode_database b = record {
  card_count = read16 b;
  max_cards = read16 (drop 2 b);
  checksum = read32 (drop 4 b);
}

-- An array of cards.
unfoldable pub encode_cards : List Card → Bytes
encode_cards [] = []
encode_cards (c ∷ cs) = encode_card c ++ encode_cards cs

unfoldable pub decode_cards : ℕ → Bytes → List Card
decode_cards zero b = []
decode_cards (suc n) b = decode_card b ∷ decode_cards n (drop card_size b)
