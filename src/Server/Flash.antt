-- ===== src/Server/Flash.antt =====
-- The firmware update of components/app_local_server/app_local_server.c.
use captive_portal_esp.Base.{
  ℕ, zero, suc, ◌+◌, ◌≤◌, ◌<◌, ◌≡◌, ◌⊎◌, refl, Bool, true, false, ◌&&◌, [], ◌∷◌, ◌++◌, ltb,
  if◌then◌else◌, length, take, drop, min, Bool-cases, Option-cases, inl, inr, arith,
}
use captive_portal_esp.Bytes.{Bytes, c_string}
use captive_portal_esp.Esp.{esp_ok, esp_fail, is_ok}
use captive_portal_esp.Server.Monitor.{Msg}
use captive_portal_esp.Server.BlankLine.{NoBlankLine, find_blank_line_inside}
use captive_portal_esp.Server.Ota.{
  Recv, received, sock_timeout, sock_error, Client, written_by, Update, nothing_yet, Outcome,
  returned, undefined, unfinished, find_blank_line, finish, write_first, ota_loop, ota_update,
}

abbrev pub Ends : Outcome → Type 0
Ends unfinished = ⊥
Ends _ = Unit

-- Nothing is done but begin and write.
abbrev Under : Update → Type 0
Under u = (u.ended ≡ false) × (u.boot_set ≡ false) × (u.messages ≡ [])

-- ESP_OK: the update was ended, the boot partition is set if ending and setting succeeded, and one
-- message says so. Any other result: none of this happened. A pointer outside the bytes read: they are the first,
-- and no blank line is in them, or a NUL before it.
abbrev pub Sound : Client → Outcome → Type 0
Sound c (returned r u) =
    (let ok = is_ok (c.ota_end u.begun) && is_ok c.set_boot_partition in
      (r ≡ esp_ok)
      × (u.ended ≡ true)
      × (u.boot_set ≡ ok)
      × (u.messages ≡ (if ok then Msg.ota_update_successful else Msg.ota_update_failed) ∷ []))
    ⊎ ((r ≡ esp_fail) × Under u)
Sound c undefined =
    (bytes : Bytes) × (c.recv 0 ≡ received bytes)
    × NoBlankLine (take (min c.content_len 1024) bytes)
Sound c unfinished = ⊥

Sound-finish : (c : Client) (u : Update) → Under u → Sound c (finish c u)
unfolding finish
Sound-finish c u (e, b, m) = inl (refl, refl, refl, rw m refl)

-- What a first piece of piece may come to.
abbrev SoundFirst : Client → Outcome ⊎ (ℕ × Update) → Type 0
SoundFirst c (inl outcome) = Sound c outcome
SoundFirst c (inr (n, u)) = Under u

SoundFirst-write_first :
    (c : Client) (bytes : Bytes) (u : Update)
    → c.recv 0 ≡ received bytes
    → Under u
    → SoundFirst c (write_first c (take (min c.content_len 1024) bytes) u)
unfolding write_first
SoundFirst-write_first c bytes u first h =
    let piece = take (min c.content_len 1024) bytes in
    let stale = drop (length piece) c.stale in
    elim (Option-cases (find_blank_line (c_string (piece ++ stale)) 0)) [
      | inl missing ↦
          rw (SoundFirst, missing)
            (
              bytes,
              first,
              λ k blank.
                  let (_, there, _) = find_blank_line_inside piece stale k blank in
                  cc (missing, there),
            )
      | inr (offset, found) ↦ elim (Bool-cases (ltb (length piece) (offset + 4))) [
        | inl behind ↦
            rw (SoundFirst, found, behind)
              (
                bytes,
                first,
                λ k blank.
                    let (other, there, inside) = find_blank_line_inside piece stale k blank in
                    let same : offset ≡ other = cc (found, there) in absurd (ground arith),
              )
        | inr inside ↦ elim (Bool-cases (is_ok c.ota_begin)) [
          | inl begun ↦ rw (SoundFirst, found, inside, begun) h
          | inr refused ↦ rw (SoundFirst, found, inside, refused) (inr (refl, h))
        ]
      ]
    ]

module _ (c : Client) where
  -- The end of a round, where `go` is what the next round comes to.
  round-Sound :
      (more : Bool) (go : Outcome) (u : Update)
      → (more ≡ true → Sound c go)
      → Under u
      → Sound c (elim more [ true ↦ go | false ↦ finish c u ])
  round-Sound true go u f h = f refl
  round-Sound false go u f h = Sound-finish c u h

  first-Sound :
      (piece : Bytes) (rx : ℕ) (s : Outcome ⊎ (ℕ × Update)) (go : ℕ → Update → Outcome)
      → SoundFirst c s
      → ((n : ℕ) (u : Update)
          → Under u
          → 0 < length piece
          → rx + n < c.content_len
          → Sound c (go n u))
      → Sound c (elim s [
        | inl outcome ↦ outcome
        | inr (n, u') ↦ elim (ltb 0 (length piece) && ltb (rx + n) c.content_len) [
          | true ↦ go n u'
          | false ↦ finish c u'
        ]
      ])
  first-Sound piece rx (inl outcome) go h f = h
  first-Sound piece rx (inr (n, u)) go h f =
      round-Sound (ltb 0 (length piece) && ltb (rx + n) c.content_len) (go n u) u
        (λ e. f n u h (ground arith) (ground arith)) h

  recv-Sound :
      (r : Recv) (u : Update) (next : Bytes → Outcome)
      → Under u
      → ((bytes : Bytes) → r ≡ received bytes → Sound c (next bytes))
      → Sound c (elim r [
        | sock_timeout ↦ finish c u
        | sock_error ↦ returned esp_fail u
        | received bytes ↦ next bytes
      ])
  recv-Sound sock_timeout u next h f = Sound-finish c u h
  recv-Sound sock_error u next h f = inr (refl, h)
  recv-Sound (received bytes) u next h f = f bytes refl

  started-Sound :
      (fuel i rx : ℕ) (u : Update)
      → rx < c.content_len
      → c.content_len ≤ fuel + rx
      → Under u
      → Sound c (ota_loop fuel c i rx true u)
  unfolding ota_loop
  started-Sound zero i rx u less enough h = absurd (omega arith)
  started-Sound (suc fuel) i rx u less enough h = recv-Sound (c.recv i) u _ h (λ bytes e.
      let piece = take (min c.content_len 1024) bytes in
      let u' = record u { image = u.image ++ written_by c i piece } in
      round-Sound (ltb 0 (length piece) && ltb (rx + length piece) c.content_len)
        (ota_loop fuel c (i + 1) (rx + length piece) true u') u'
        (λ e.
          let pos : 0 < length piece = ground arith in
          started-Sound fuel (i + 1) (rx + length piece) u' (ground arith) (omega arith) h)
        h)

  -- However the connection and the update library answer, the handler does not run for ever, and
  -- it returns, unless the first bytes received hold no blank line, or a NUL before it, which
  -- leaves a pointer outside them. With ESP_OK: the update is ended, the boot partition is set
  -- exactly if ending the update and setting it succeeded, and the one message sent to the monitor
  -- says whether. With ESP_FAIL: none of that happened.
  pub ota_update-Sound : Sound c (ota_update c)
  unfolding ota_update ota_loop
  ota_update-Sound =
      recv-Sound (c.recv 0) nothing_yet _ (refl, refl, refl)
        (λ bytes first.
          let piece = take (min c.content_len 1024) bytes in
          first-Sound piece 0 (write_first c piece nothing_yet)
            (λ n u'. ota_loop (suc c.content_len) c (0 + 1) (0 + n) true u')
            (SoundFirst-write_first c bytes nothing_yet first (refl, refl, refl))
            (λ n u' h' pos less'.
              started-Sound (suc c.content_len) (0 + 1) (0 + n) u' less' (omega arith) h'))
