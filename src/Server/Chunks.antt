-- ===== src/Server/Chunks.antt =====
-- How `http_server_ota_update_handler` of components/app_local_server/app_local_server.c puts the image
-- together.
use mathlib.Core.List.{append_assoc}
use captive_portal_esp.Base.{
  ℕ, zero, suc, ◌+◌, ◌-◌, ◌≤◌, ◌<◌, ◌≡◌, refl, ap, ◌∙◌, true, some, List, [], ◌∷◌, ◌++◌, ltb,
  lt→ltb, le→ltb_false, length, take, drop, min, take_all, take_nil, inr, arith,
}
use captive_portal_esp.Bytes.{Bytes, c_string}
use captive_portal_esp.Esp.{esp_ok}
use captive_portal_esp.Server.Monitor.{Msg}
use captive_portal_esp.Server.Ota.{
  Recv, received, Client, written_by, Update, nothing_yet, returned, find_blank_line, finish,
  write_first, ota_loop, ota_update,
}
use captive_portal_esp.Server.Timeouts.{nothing_written}

-- A body that arrives in these pieces.
abbrev pub pieces : List Bytes → ℕ → Recv
pieces [] i = received []
pieces (d ∷ ds) zero = received d
pieces (d ∷ ds) (suc i) = pieces ds i

abbrev pub joined : List Bytes → Bytes
joined [] = []
joined (d ∷ ds) = d ++ joined ds

abbrev pub total : List Bytes → ℕ
total [] = 0
total (d ∷ ds) = length d + total ds

-- What the calls of `esp_ota_write` on these pieces bring to the partition, from the `i`-th on.
abbrev pub written_from : Client → ℕ → List Bytes → Bytes
written_from c i [] = []
written_from c i (d ∷ ds) = written_by c i d ++ written_from c (i + 1) ds

written_from-joined :
    (c : Client)
    → ((i : ℕ) → c.ota_write i ≡ esp_ok)
    → (i : ℕ) (ds : List Bytes) → written_from c i ds ≡ joined ds
written_from-joined c ok i [] = refl
written_from-joined c ok i (d ∷ ds) = rw (ok i, written_from-joined c ok (i + 1) ds) refl

-- No piece is empty or larger than `ota_buffer`.
abbrev pub Pieces : List Bytes → Type 0
Pieces [] = Unit
Pieces (d ∷ ds) = (0 < length d) × (length d ≤ 1024) × Pieces ds

module _ (c : Client) where
  loop_joins :
      (ds : List Bytes) (fuel i rx : ℕ) (u : Update)
      → ((k : ℕ) → c.recv (i + k) ≡ pieces ds k)
      → Pieces ds
      → total ds < fuel
      → total ds + rx < c.content_len
      → ota_loop fuel c i rx true u ≡ finish c (record u { image = u.image ++ written_from c i ds })
  unfolding ota_loop
  loop_joins ds zero i rx u at_k p f less = absurd (omega arith)
  loop_joins [] (suc fuel) i rx u at_k p f less =
      let here : i + 0 ≡ i = omega arith in
      let none_left : c.recv i ≡ received [] = rw here at (at_k 0) in
      let nothing = take_nil {A = ℕ} (min c.content_len 1024) in
      rw (ota_loop, none_left, nothing, nothing)
        (ap (λ x. finish c (record u { image = u.image ++ x })) (nothing_written c i))
  loop_joins (d ∷ ds) (suc fuel) i rx u at_k (pos, small, p) f less =
      let here : i + 0 ≡ i = omega arith in
      let this : c.recv i ≡ received d = rw here at (at_k 0) in
      let whole : take (min c.content_len 1024) d ≡ d =
        take_all (min c.content_len 1024) d (omega arith) in
      let more : ltb 0 (length d) ≡ true = lt→ltb 0 (length d) pos in
      let unfinished : ltb (rx + length d) c.content_len ≡ true = lt→ltb _ _ (omega arith) in
      let u' = record u { image = u.image ++ written_by c i d } in
      let rest =
        loop_joins ds fuel (i + 1) (rx + length d) u'
          (λ k. let next : i + 1 + k ≡ i + suc k = omega arith in rw next (at_k (suc k))) p
          (omega arith) (omega arith) in
      rw (ota_loop, this, whole, more, unfinished, whole)
        (rest
          ∙ ap (λ x. finish c (record u { image = x }))
              (append_assoc u.image (written_by c i d) (written_from c (i + 1) ds)))

  write_first_lem :
      (first : Bytes) (offset : ℕ)
      → find_blank_line (c_string (first ++ drop (length first) c.stale)) 0 ≡ some offset
      → offset + 4 ≤ length first
      → c.ota_begin ≡ esp_ok
      → write_first c first nothing_yet
        ≡ inr (
          length first - (offset + 4),
          record nothing_yet { begun = true; image = written_by c 0 (drop (offset + 4) first) },
        )
  unfolding write_first
  write_first_lem first offset blank inside begun =
      rw (write_first, blank, le→ltb_false _ _ inside, begun) refl

  -- A body that arrives whole, in any pieces of at most 1024 bytes, with a blank line in the
  -- first, where the update can be begun: the image is the pieces in their order, the first from
  -- behind its blank line, none doubled or out of order, less exactly those whose call of
  -- esp_ota_write failed. Then the update is ended, whichever calls failed.
  pub ota_update_writes :
      (first : Bytes) (ds : List Bytes) (offset : ℕ)
      → ((k : ℕ) → c.recv k ≡ pieces (first ∷ ds) k)
      → Pieces (first ∷ ds)
      → total (first ∷ ds) ≡ c.content_len
      → find_blank_line (c_string (first ++ drop (length first) c.stale)) 0 ≡ some offset
      → offset + 4 ≤ length first
      → c.ota_begin ≡ esp_ok
      → ota_update c
        ≡ finish c (record nothing_yet {
          begun = true;
          image = written_by c 0 (drop (offset + 4) first) ++ written_from c 1 ds;
        })
  unfolding ota_update ota_loop
  ota_update_writes first ds offset arrives (pos, small, p) size blank inside begun =
      let whole : take (min c.content_len 1024) first ≡ first =
        take_all (min c.content_len 1024) first (omega arith) in
      let written = write_first_lem first offset blank inside begun in
      let some_there : ltb 0 (length first) ≡ true = lt→ltb 0 (length first) pos in
      let more : ltb (0 + (length first - (offset + 4))) c.content_len ≡ true =
        lt→ltb _ _ (omega arith) in
      let u : Update = record nothing_yet {
        begun = true;
        image = written_by c 0 (drop (offset + 4) first);
      } in
      rw (ota_loop, arrives 0, whole, written, whole, some_there, more)
        (loop_joins ds (suc c.content_len) (0 + 1) (0 + (length first - (offset + 4))) u
          (λ k. let next : 0 + 1 + k ≡ suc k = omega arith in rw next (arrives (suc k))) p
          (omega arith) (omega arith))

  -- If every call of `esp_ota_write` and the end of the update succeed: the image is the body from behind the
  -- blank line on, it is booted next, and the monitor is told.
  pub ota_update_flashes :
      (first : Bytes) (ds : List Bytes) (offset : ℕ)
      → ((k : ℕ) → c.recv k ≡ pieces (first ∷ ds) k)
      → Pieces (first ∷ ds)
      → total (first ∷ ds) ≡ c.content_len
      → find_blank_line (c_string (first ++ drop (length first) c.stale)) 0 ≡ some offset
      → offset + 4 ≤ length first
      → c.ota_begin ≡ esp_ok
      → ((i : ℕ) → c.ota_write i ≡ esp_ok)
      → c.ota_end true ≡ esp_ok
      → c.set_boot_partition ≡ esp_ok
      → ota_update c
        ≡ returned esp_ok (record {
          begun = true;
          image = drop (offset + 4) first ++ joined ds;
          ended = true;
          boot_set = true;
          messages = Msg.ota_update_successful ∷ [];
        })
  unfolding finish
  ota_update_flashes first ds offset arrives p size blank inside begun ok ended boot =
      rw
        (
          ota_update_writes first ds offset arrives p size blank inside begun,
          ok 0,
          written_from-joined c ok 1 ds,
          ended,
          boot,
        )
        refl
