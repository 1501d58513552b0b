-- ===== src/Rfid/Valid.antt =====
-- What `rfid_manager_is_database_valid` of components/rfid_manager/rfid_manager.c means for files that hold any bytes.
use mathlib.Core.List.{append-nil}
use captive_portal_esp.Base.{
  ℕ, ◌*◌, ◌≤◌, ◌≡◌, refl, sym, ap, ◌∙◌, true, some, List, [], ◌++◌, ltb, ◌==◌, ==_iff, length, take,
  take_all, Bool-cases, Option-cases, inl, inr, ◌⊎◌, arith,
}
use captive_portal_esp.Bytes.{Bytes}
use captive_portal_esp.Esp.{Env, World, Reliable, Reliable-Whole, take_mutex, give_mutex}
use captive_portal_esp.Storage.{content, file_exists, get_file_size}
use captive_portal_esp.Storage.Reliable.{get_file_size-some}
use captive_portal_esp.Rfid.Card.{
  Card, encode_database, decode_database, encode_cards, decode_cards,
}
use captive_portal_esp.Rfid.Decoded.{
  Octets, encode_database-decode_database, decode_database_fits, encode_cards-decode_cards,
  length-decode_cards,
}
use captive_portal_esp.Rfid.Opened.{read_database_opened}
use captive_portal_esp.Rfid.Represents.{header}
use captive_portal_esp.Rfid.Layout.{FitsCards}
use captive_portal_esp.Rfid.Refine.{locked}
use captive_portal_esp.Rfid.Faults.{Shows}
use captive_portal_esp.Rfid.Query.{cards_missing, is_database_valid}
use captive_portal_esp.Rfid.Store.{db_path, cards_path}

-- The header counts cards that the other file begins with, and there is room for them; bytes follow only
-- where no card is counted.
abbrev pub Valid : World → Type 0
Valid w =
    (max : ℕ) × (cards : List Card) × (rest : Bytes) × Shows max cards rest w
    × (length cards ≤ max)
    × ((cards ≡ []) ⊎ (rest ≡ []))

module _ (w : World) (h : Bytes) (there : w.files db_path ≡ some h) (size : length h ≡ 8)
    (octets : Octets h) where
  -- As many cards as the header counts, if the other file has at least their bytes.
  Shows-counted :
      (cards : List Card) (rest : Bytes)
      → length cards ≡ (decode_database h).card_count
      → content (w.files cards_path) ≡ encode_cards cards ++ rest
      → FitsCards cards
      → Shows (decode_database h).max_cards cards rest w
  Shows-counted cards rest same body fits =
      let db = decode_database h in
      let ranges = decode_database_fits h octets in
      record {
        checksum = db.checksum;
        sum_range = ranges.sum_range;
        max_range = ranges.max_range;
        count_range = omega (arith, same, ranges.count_range);
        fits = fits;
        database =
            there
            ∙ ap some (sym (encode_database-decode_database h size octets))
            ∙ ap {A = ℕ} (λ n. some (encode_database (header n db.max_cards db.checksum)))
                (sym same);
        body = body;
      }

  -- A cards file of exactly the size that the header counts.
  exact_size :
      (b : Bytes)
      → w.files cards_path ≡ some b
      → length b ≡ (decode_database h).card_count * 44
      → (decode_database h).card_count ≤ (decode_database h).max_cards
      → Octets (content (w.files cards_path))
      → Valid w
  exact_size b file same room card_octets =
      let db = decode_database h in
      let cards = decode_cards db.card_count b in
      let count = length-decode_cards db.card_count b in
      let (coded, fits) =
        encode_cards-decode_cards db.card_count b (omega (arith, same)) (rw file at card_octets) in
      let whole : take (db.card_count * 44) b ≡ b =
        take_all (db.card_count * 44) b (omega (arith, same)) in
      (
        db.max_cards,
        cards,
        [],
        Shows-counted cards [] count
            (ap content file ∙ sym (append-nil (encode_cards cards) ∙ coded ∙ whole)) fits,
        omega (arith, count, room),
        inr refl,
      )

  module _ {env : Env} (rel : Reliable env)
      (card_octets : Octets (content (w.files cards_path))) where
    -- Where no platform call fails, on a header file of eight bytes and a cards file of whatever
    -- bytes: if the database is called valid, then the header counts cards that the cards file
    -- begins with, fields in range, and has room for them; and no bytes follow, unless no card is
    -- counted.
    pub is_database_valid-Valid : (is_database_valid env w).0 ≡ true → Valid w
    unfolding is_database_valid encode_cards take_mutex give_mutex file_exists cards_missing
        get_file_size
    is_database_valid-Valid valid =
        let db = decode_database h in
        let (t, e) =
          read_database_opened (Reliable-Whole rel) db (locked w) (decode_database_fits h octets)
            (rel.fopen_ok _)
            (there ∙ ap some (sym (encode_database-decode_database h size octets))) in
        let checked = rw (rel.semaphore_taken w.tick, there, e) at valid in
        elim (Bool-cases (ltb db.max_cards db.card_count)) [
          | inl over ↦ absurd (cc (rw over at checked))
          | inr room ↦ elim (Bool-cases (ltb 0 db.card_count)) [
            | inr empty ↦ (
              db.max_cards,
              [],
              content (w.files cards_path),
              Shows-counted [] (content (w.files cards_path)) (ground arith) refl tt,
              omega arith,
              inl refl,
            )
            | inl pos ↦ elim (Option-cases (w.files cards_path)) [
              | inl missing ↦ absurd (cc (rw (room, pos, missing) at checked))
              | inr (b, file) ↦
                  let sized =
                    get_file_size-some cards_path b (record (locked w) { tick = t }) file in
                  elim (Bool-cases (length b == db.card_count * 44)) [
                    | inr differs ↦ absurd (cc (rw (room, pos, file, sized, differs) at checked))
                    | inl same ↦ exact_size b file ((==_iff _ _).0 same) (ground arith) card_octets
                  ]
            ]
          ]
        ]
