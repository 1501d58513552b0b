-- ===== src/Rfid/Opened.antt =====
-- How rfid_manager.c reads the two files of components/rfid_manager where they open and no read is short.
use mathlib.Core.List.{append-nil}
use captive_portal_esp.Base.{
  ℕ, ◌+◌, ◌*◌, ◌<◌, ◌≡◌, sym, ap, ◌∙◌, true, some, none, Option, List, [], ◌++◌, length, tabulate,
  length-tabulate, length-append, arith,
}
use captive_portal_esp.Bytes.{Bytes}
use captive_portal_esp.Esp.{Env, World, Whole, uninitialised}
use captive_portal_esp.Storage.{content}
use captive_portal_esp.Storage.Reliable.{read_file-Whole}
use captive_portal_esp.Rfid.Card.{Card, Database, FitsDatabase, encode_database, encode_cards}
use captive_portal_esp.Rfid.Layout.{
  FitsCards, length-encode_database, length-encode_cards, decode_database-encode_database,
  decode_cards-encode_cards,
}
use captive_portal_esp.Rfid.Store.{db_path, cards_path, read_database, read_cards}

pub eq_some-content : (o : Option Bytes) (b : Bytes) → content o ≡ b → 0 < length b → o ≡ some b
eq_some-content none b e h = absurd (omega (arith, ap length e))
eq_some-content (some x) b e h = ap some e

module _ {env : Env} (whole : Whole env) where
  -- A header that fits its fields is read as it was written.
  pub read_database_opened :
      (db : Database) (w : World)
      → FitsDatabase db
      → env.fopen_ok (w.tick + 1) ≡ true
      → w.files db_path ≡ some (encode_database db)
      → (t : ℕ) × (read_database env w ≡ ((true, db), record w { tick = t }))
  unfolding read_database uninitialised
  read_database_opened db w fits opens there =
      let (t, e) =
        read_file-Whole whole db_path (tabulate 8 (env.garbage w.tick) 0) (encode_database db) []
          (record w { tick = w.tick + 1 }) opens (omega arith)
          (there ∙ ap some (sym (append-nil _))) (length-encode_database db) in
      (t, rw e (rw (decode_database-encode_database db fits)))

  -- As many cards as the file begins with are read as they were written, whatever follows.
  pub read_cards_opened :
      (cards : List Card) (rest : Bytes) (w : World)
      → FitsCards cards
      → 0 < length cards
      → env.fopen_ok (w.tick + 1) ≡ true
      → content (w.files cards_path) ≡ encode_cards cards ++ rest
      → (t : ℕ) × (read_cards env (length cards) w ≡ ((true, cards), record w { tick = t }))
  unfolding read_cards uninitialised
  read_cards_opened cards rest w fits pos opens body =
      let n : ℕ = length cards * 44 in
      let b = encode_cards cards in
      let size = length-encode_cards cards fits in
      let room = length-tabulate n (env.garbage w.tick) 0 in
      let there =
        eq_some-content (w.files cards_path) (b ++ rest) body
          (omega (arith, length-append b rest)) in
      let (t, e) =
        read_file-Whole whole cards_path (tabulate n (env.garbage w.tick) 0) b rest
          (record w { tick = w.tick + 1 }) opens (omega arith) there (size ∙ sym room) in
      (
        t,
        rw e (
            ap (λ c. ((true, c), record w { tick = t }))
              (rw (← append-nil b) (decode_cards-encode_cards cards [] fits))),
      )
