-- ===== src/Nvs/Room.antt =====
-- The buffers of `wifi_init_sta` and of `wifi_credentials_test` for components/nvs_storage/nvs_storage.c.
use mathlib.Core.List.{append_assoc}
use captive_portal_esp.Base.{
  ℕ, ◌+◌, ◌-◌, ◌≤◌, ◌≡◌, ap, ◌∙◌, [], ◌∷◌, ◌++◌, length, take, drop, length-append, length-take,
  length-drop, arith, min, true, refl, sym, take-append, drop-drop,
}
use captive_portal_esp.Bytes.{Bytes}
use captive_portal_esp.Text.{put, drop_past}
use captive_portal_esp.Nvs.Api.{Nvs, Dependable, Session}
use captive_portal_esp.Nvs.Credentials.{set_wifi_credentials, get_wifi_credentials}
use captive_portal_esp.Nvs.Keeps.{stored, filled, get_wifi_credentials-filled}

length-put :
    (b : Bytes) (n : ℕ) (t : Bytes)
    → length (put b n t) ≡ min n (length b) + (length t + (length b - (n + length t)))
length-put b n t = omega (
  arith,
  length-append (take n b) (t ++ drop (n + length t) b),
  length-append t (drop (n + length t) b),
  length-take n b,
  length-drop (n + length t) b,
)

pub length-filled :
    (b t : Bytes)
    → (length t + 2 ≤ length b → length (filled b t) ≡ length b)
      × (length t + 1 ≡ length b → length (filled b t) ≡ length b + 1)
length-filled b t =
    let st : Bytes = stored t in
    let size : length st ≡ length t + 1 = length-append t (0 ∷ []) in
    let first = length-put b 0 st in
    let second = length-put (put b 0 st) (length st) (0 ∷ []) in
    (λ h. omega (arith, size, first, second), λ h. omega (arith, size, first, second))

-- Where no call of the storage library fails and it keeps what is set, reading the network's name
-- back stays in a buffer with room for it and two bytes more; a buffer with room for one byte more
-- is written one byte past its end.
pub get_wifi_credentials_room :
    {S : Type 0} {nvs : Nvs S} (doc : Dependable nvs) (ssid password a b : Bytes) (w : Session S)
    → let after = (get_wifi_credentials nvs a b (set_wifi_credentials nvs ssid password w).1).0 in
      (length ssid + 2 ≤ length a → length after.1.0 ≡ length a)
      × (length ssid + 1 ≡ length a → length after.1.0 ≡ length a + 1)
get_wifi_credentials_room doc ssid password a b w =
    let back = ap (λ x. length x.1.0) (get_wifi_credentials-filled doc ssid password a b w).1 in
    let sizes = length-filled a ssid in (λ h. back ∙ sizes.0 h, λ h. back ∙ sizes.1 h)

filled_lem :
    (buffer text : Bytes) → filled buffer text ≡ text ++ 0 ∷ 0 ∷ drop (length text + 2) buffer
filled_lem buffer text =
    let nul : Bytes = 0 ∷ [] in
    let st : Bytes = stored text in
    let size : length st ≡ length text + 1 = length-append text nul in
    let behind : Bytes = drop (0 + (length text + 1)) buffer in
    let kept : take (length text + 1) (st ++ behind) ≡ st =
      take-append (length text + 1) st behind size in
    let rest : drop (length text + 1 + 1) (st ++ behind) ≡ drop 1 behind =
      ap (λ k. drop (k + 1) (st ++ behind)) (sym size) ∙ drop_past st behind 1 in
    let later : drop 1 behind ≡ drop (0 + (length text + 1) + 1) buffer =
      drop-drop 1 (0 + (length text + 1)) buffer in
    let two : 0 + (length text + 1) + 1 ≡ length text + 2 = omega arith in
    rw (size, kept, rest, later, two, append_assoc text nul (0 ∷ drop (length text + 2) buffer))
      refl

-- Where no call of the storage library fails and it keeps what is set, credentials are read back
-- into buffers with room for them and two bytes more: both calls return true, each buffer begins
-- with its text and two NULs, the bytes behind are as they were, and neither buffer is overrun.
pub get_wifi_credentials-set_wifi_credentials :
    {S : Type 0} {nvs : Nvs S} (doc : Dependable nvs) (ssid password a b : Bytes) (w : Session S)
    → length ssid + 2 ≤ length a
    → length password + 2 ≤ length b
    → (let (done, after) = set_wifi_credentials nvs ssid password w in
        let (found, (a', b')) = (get_wifi_credentials nvs a b after).0 in
        (done ≡ true)
        × (found ≡ true)
        × (a' ≡ ssid ++ 0 ∷ 0 ∷ drop (length ssid + 2) a)
        × (length a' ≡ length a)
        × (b' ≡ password ++ 0 ∷ 0 ∷ drop (length password + 2) b)
        × (length b' ≡ length b))
get_wifi_credentials-set_wifi_credentials doc ssid password a b w room_a room_b =
    let (done, back) = get_wifi_credentials-filled doc ssid password a b w in
    let a_back = ap (λ x. x.1.0) back in
    let b_back = ap (λ x. x.1.1) back in
    (
      done,
      ap (λ x. x.0) back,
      a_back ∙ filled_lem a ssid,
      ap length a_back ∙ (length-filled a ssid).0 room_a,
      b_back ∙ filled_lem b password,
      ap length b_back ∙ (length-filled b password).0 room_b,
    )
