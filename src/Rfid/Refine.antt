-- ===== src/Rfid/Refine.antt =====
-- The reading operations of components/rfid_manager/rfid_manager.c on files that represent a list of
-- cards.
use mathlib.Core.List.{append-nil}
use captive_portal_esp.Base.{
  ℕ, zero, suc, ◌+◌, ◌-◌, ◌*◌, ◌/◌, ◌%◌, ◌<◌, ◌^◌, ◌≡◌, refl, sym, ap, ◌∙◌, ◌==◌, ltb, le→ltb_false,
  ltb→lt, ==_refl, ==_iff, true, some, List, [], ◌∷◌, ◌++◌, if◌then◌else◌, length, take, drop,
  length-take, Bool-cases, inl, inr, arith,
}
use captive_portal_esp.Bytes.{Bytes}
use captive_portal_esp.Esp.{Env, World, Reliable, esp_ok, no_mem, take_mutex, give_mutex}
use captive_portal_esp.Storage.{file_exists, get_file_size}
use captive_portal_esp.Storage.Reliable.{read_file-Reliable, get_file_size-some}
use captive_portal_esp.Rfid.Card.{Card, encode_cards, encode_database}
use captive_portal_esp.Rfid.Layout.{length-encode_cards}
use captive_portal_esp.Rfid.Opened.{eq_some-content}
use captive_portal_esp.Rfid.Represents.{
  Represents, Represents-same, Refines, header, read_database-Represents, write_database-Reliable,
}
use captive_portal_esp.Rfid.Store.{db_path, cards_path}
use captive_portal_esp.Rfid.Query.{
  sum_indices, get_card_count, list_cards, save_to_file, cards_missing, load_from_file,
  is_database_valid,
}

abbrev pub locked : World → World
locked w = record w { tick = w.tick + 1; usage = record w.usage { takes = w.usage.takes + 1 } }

-- 0 + 1 + … + (n - 1), from `i` on
abbrev indices_from : ℕ → ℕ → ℕ
indices_from zero i = 0
indices_from (suc n) i = i + indices_from n (i + 1)

indices_from_closed : (n i : ℕ) → 2 * indices_from n i + n ≡ n * (2 * i + n)
indices_from_closed zero i = omega arith
indices_from_closed (suc n) i = omega (arith, indices_from_closed n (i + 1))

sum_indices_lem :
    (n i sum : ℕ) → sum < 2 ^ 32 → sum_indices n i sum ≡ (sum + indices_from n i) % 2 ^ 32
unfolding sum_indices
sum_indices_lem zero i sum h = omega arith
sum_indices_lem (suc n) i sum h =
    omega (arith, sum_indices_lem n (i + 1) ((sum + i) % 2 ^ 32) (omega arith))

mul_square : (n : ℕ) → suc n * (2 * 0 + suc n) ≡ suc n * n + suc n
mul_square n = grind arith

pub sum_indices_closed : (n : ℕ) → sum_indices n 0 0 ≡ (n * (n - 1) / 2) % 2 ^ 32
sum_indices_closed zero = omega (arith, sum_indices_lem 0 0 0 (omega arith))
sum_indices_closed (suc n) =
    let less : suc n - 1 ≡ n = omega arith in
    let square : suc n * (2 * 0 + suc n) ≡ suc n * n + suc n = mul_square n in
    rw less (
      omega
        (arith, sum_indices_lem (suc n) 0 0 (omega arith), indices_from_closed (suc n) 0, square))

list_empty :
    (cards : List Card) (buffer : Bytes)
    → length cards ≡ 0
    → encode_cards cards ++ drop (length cards * 44) buffer ≡ buffer
unfolding encode_cards
list_empty [] buffer h = refl
list_empty (c ∷ cs) buffer h = absurd (omega arith)

module _ {env : Env} (rel : Reliable env) {max : ℕ} (cards : List Card) (w : World)
    (r : Represents max cards w) where
  -- Where no platform call fails, the count is the number of cards, and the files stay as they
  -- are.
  pub get_card_count_refines :
      ((get_card_count env w).0 ≡ length cards) × Represents max cards (get_card_count env w).1
  unfolding get_card_count take_mutex give_mutex
  get_card_count_refines =
      let (t, e) = read_database-Represents rel cards (locked w) (Represents-same r refl) in
      rw (rel.semaphore_taken w.tick, e) (refl, Represents-same r refl)

  there_if_counted : ltb 0 (length cards) ≡ true → w.files cards_path ≡ some (encode_cards cards)
  there_if_counted pos =
      eq_some-content (w.files cards_path) (encode_cards cards) r.body
        (omega (arith, length-encode_cards cards r.fits, ltb→lt 0 (length cards) pos))

  -- Where no platform call fails, files that represent a list of cards are loaded, and stay as
  -- they are.
  pub load_from_file-Refines : Refines max (load_from_file env w) (esp_ok, cards)
  unfolding load_from_file take_mutex give_mutex file_exists cards_missing
  load_from_file-Refines =
      let (t, e) = read_database-Represents rel cards (locked w) (Represents-same r refl) in
      rw (rel.semaphore_taken w.tick, r.database, e, le→ltb_false max (length cards) r.room)
        (elim (Bool-cases (ltb 0 (length cards))) [
          | inl pos ↦ rw (pos, there_if_counted pos) (refl, Represents-same r refl)
          | inr empty ↦ rw empty (refl, Represents-same r refl)
        ])

  -- Where no platform call fails, files that represent a list of cards are called valid, and stay
  -- as they are.
  pub is_database_valid_refines :
      ((is_database_valid env w).0 ≡ true) × Represents max cards (is_database_valid env w).1
  unfolding is_database_valid take_mutex give_mutex file_exists cards_missing get_file_size
  is_database_valid_refines =
      let (t, e) = read_database-Represents rel cards (locked w) (Represents-same r refl) in
      rw (rel.semaphore_taken w.tick, r.database, e, le→ltb_false max (length cards) r.room)
        (elim (Bool-cases (ltb 0 (length cards))) [
          | inl pos ↦
              let size =
                get_file_size-some cards_path (encode_cards cards) (record (locked w) { tick = t })
                  (there_if_counted pos) in
              rw (pos, there_if_counted pos, size)
                (rw (length-encode_cards cards r.fits, ==_refl (length cards * 44))
                  (refl, Represents-same r refl))
          | inr empty ↦ rw empty (refl, Represents-same r refl)
        ])

  -- Where no platform call fails, saving keeps the cards and writes, as the checksum of `n` cards,
  -- the sum of the numbers below `n` as a `uint32_t`.
  pub save_to_file-Refines :
      Refines max (save_to_file env w) (esp_ok, cards)
      × ((save_to_file env w).1.files db_path
          ≡ some (
              encode_database
                (header (length cards) max ((length cards * (length cards - 1) / 2) % 2 ^ 32))))
  unfolding save_to_file take_mutex give_mutex
  save_to_file-Refines =
      let (t, e) = read_database-Represents rel cards (locked w) (Represents-same r refl) in
      let db = header (length cards) max (sum_indices (length cards) 0 0) in
      let (t2, e2) = write_database-Reliable rel db (record (locked w) { tick = t }) in
      rw (rel.semaphore_taken w.tick, e, e2)
        (
          (
            refl,
            record {
              checksum = sum_indices (length cards) 0 0;
              sum_range = omega (arith, sum_indices_closed (length cards));
              max_range = r.max_range;
              room = r.room;
              fits = r.fits;
              database = refl;
              body = r.body;
            },
          ),
          ap {A = ℕ} (λ c. some (encode_database (header (length cards) max c)))
              (sum_indices_closed (length cards)),
        )

  -- Where no platform call fails and the caller's buffer has room for `capacity` cards, listing
  -- fills its start with the cards and leaves the rest; a smaller capacity than there are cards is
  -- refused, buffer untouched.
  pub list_cards_refines :
      (buffer : Bytes) (capacity : ℕ)
      → length buffer ≡ capacity * 44
      → ((list_cards env (some buffer) capacity w).0 ≡ (
          if ltb capacity (length cards)
          then (no_mem, buffer)
          else (esp_ok, encode_cards cards ++ drop (length cards * 44) buffer)))
        × Represents max cards (list_cards env (some buffer) capacity w).1
  unfolding list_cards take_mutex give_mutex
  list_cards_refines buffer capacity size =
      let (t, e) = read_database-Represents rel cards (locked w) (Represents-same r refl) in
      rw (rel.semaphore_taken w.tick, e)
        (elim (Bool-cases (ltb capacity (length cards))) [
          | inl small ↦ rw small (refl, Represents-same r refl)
          | inr enough ↦ rw enough (elim (Bool-cases (length cards == 0)) [
            | inl empty ↦
                rw (empty, list_empty cards buffer ((==_iff _ _).0 empty))
                  (refl, Represents-same r refl)
            | inr some_cards ↦
                let there =
                  eq_some-content (w.files cards_path) (encode_cards cards) r.body
                    (ground (arith, length-encode_cards cards r.fits)) in
                let taken : length (take (length cards * 44) buffer) ≡ length cards * 44 =
                  ground (arith, length-take (length cards * 44) buffer) in
                let (t2, e2) =
                  read_file-Reliable rel cards_path (take (length cards * 44) buffer)
                    (encode_cards cards) [] (record (locked w) { tick = t }) (ground arith)
                    (there ∙ ap some (sym (append-nil _)))
                    (length-encode_cards cards r.fits ∙ sym taken) in
                rw (some_cards, e2) (refl, Represents-same r refl)
          ])
        ])
