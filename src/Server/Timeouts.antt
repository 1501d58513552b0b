-- ===== src/Server/Timeouts.antt =====
-- What a timeout does to `http_server_ota_update_handler` of components/app_local_server/app_local_server.c.
use mathlib.Core.List.{append-nil}
use captive_portal_esp.Base.{
  ℕ, zero, suc, ◌+◌, ◌≡◌, ◌⊎◌, refl, true, false, ◌&&◌, [], ◌++◌, ltb, length, take, take_nil, min,
  Bool-cases, inl, inr,
}
use captive_portal_esp.Bytes.{Bytes}
use captive_portal_esp.Esp.{esp_fail, is_ok}
use captive_portal_esp.Server.Ota.{
  Recv, received, sock_timeout, sock_error, Client, written_by, Update, nothing_yet, Outcome,
  returned, finish, write_first, ota_loop, ota_update,
}

-- The same client, whose timeouts are the end of the body.
abbrev end_for_timeout : Recv → Recv
end_for_timeout sock_timeout = received []
end_for_timeout r = r

abbrev pub timeouts_end : Client → Client
timeouts_end c = record c { recv = λ i. end_for_timeout (c.recv i) }

module _ (c : Client) where
  recv_same :
      (r : Recv) (u : Update) (next next' : Bytes → Outcome)
      → ((bytes : Bytes) → next bytes ≡ next' bytes)
      → finish c u ≡ next' []
      → elim r as (λ _. Outcome) [
        | sock_timeout ↦ finish c u
        | sock_error ↦ returned esp_fail u
        | received bytes ↦ next bytes
      ]
        ≡ elim (end_for_timeout r) as (λ _. Outcome) [
          | sock_timeout ↦ finish (timeouts_end c) u
          | sock_error ↦ returned esp_fail u
          | received bytes ↦ next' bytes
        ]
  recv_same sock_timeout u next next' f e = e
  recv_same sock_error u next next' f e = refl
  recv_same (received bytes) u next next' f e = f bytes

  pub nothing_written : (i : ℕ) → written_by c i [] ≡ []
  nothing_written i = elim (Bool-cases (is_ok (c.ota_write i))) [
    | inl done ↦ rw done refl
    | inr failed ↦ rw failed refl
  ]

  finish_same : (u : Update) → finish c u ≡ finish (timeouts_end c) u
  unfolding finish
  finish_same u = refl

  loop_same :
      (fuel i rx : ℕ) (u : Update)
      → ota_loop fuel c i rx true u ≡ ota_loop fuel (timeouts_end c) i rx true u
  unfolding ota_loop
  loop_same zero i rx u = refl
  loop_same (suc fuel) i rx u =
      let n : ℕ = min c.content_len 1024 in
      recv_same (c.recv i) u _ _
        (λ bytes.
          let u' = record u { image = u.image ++ written_by c i (take n bytes) } in
          let len = length (take n bytes) in
          elim (Bool-cases (ltb 0 len && ltb (rx + len) c.content_len)) [
            | inl more ↦ rw more (loop_same fuel (i + 1) (rx + len) u')
            | inr last ↦ rw last (finish_same u')
          ])
        (rw (take_nil {A = ℕ} n, take_nil {A = ℕ} n, nothing_written i, append-nil u.image)
          (finish_same u))

  -- Once the first bytes were received, a timeout is not retried: the handler does all that it
  -- would do if the body ended there.
  pub ota_update_timeouts :
      (first : Bytes) → c.recv 0 ≡ received first → ota_update c ≡ ota_update (timeouts_end c)
  unfolding ota_update ota_loop write_first
  ota_update_timeouts first e =
      let piece = take (min c.content_len 1024) first in
      rw (ota_loop, e) (go (write_first c piece nothing_yet))
    where
      piece_of : Bytes
      piece_of = take (min c.content_len 1024) first

      go :
          (s : Outcome ⊎ (ℕ × Update))
          → elim s as (λ _. Outcome) [
            | inl outcome ↦ outcome
            | inr (n, u) ↦ elim (ltb 0 (length piece_of) && ltb (0 + n) c.content_len) [
              | true ↦ ota_loop (suc c.content_len) c (0 + 1) (0 + n) true u
              | false ↦ finish c u
            ]
          ]
            ≡ elim s as (λ _. Outcome) [
              | inl outcome ↦ outcome
              | inr (n, u) ↦ elim (ltb 0 (length piece_of) && ltb (0 + n) c.content_len) [
                | true ↦ ota_loop (suc c.content_len) (timeouts_end c) (0 + 1) (0 + n) true u
                | false ↦ finish (timeouts_end c) u
              ]
            ]
      go (inl outcome) = refl
      go (inr (n, u)) = elim (Bool-cases (ltb 0 (length piece_of) && ltb (0 + n) c.content_len)) [
        | inl more ↦ rw more (loop_same (suc c.content_len) (0 + 1) (0 + n) u)
        | inr last ↦ rw last (finish_same u)
      ]
