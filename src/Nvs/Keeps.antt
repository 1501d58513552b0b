-- ===== src/Nvs/Keeps.antt =====
-- What components/nvs_storage keeps, where no call of the library fails and it keeps what is set.
use Prim.Native.String.{String}
use text.Mathlib.Text.{◌==◌ as str_eq}
use captive_portal_esp.Base.{
  ◌+◌, ◌≤◌, ◌<◌, ◌≡◌, ◌≢◌, refl, ap, ◌∙◌, true, false, ltb, lt→ltb, le→ltb_false, ◌==◌, length,
  length-append, arith, some, [], ◌∷◌, ◌++◌, drop,
}
use captive_portal_esp.Bytes.{Bytes, c_string}
use captive_portal_esp.Text.{put}
use captive_portal_esp.Nvs.Api.{Nvs, Dependable, Session, open_handle, close_handle}
use captive_portal_esp.Nvs.Credentials.{set_wifi_credentials, get_text, get_wifi_credentials}
use captive_portal_esp.Nvs.Params.{set_params, get_params}

abbrev password_key : String
password_key = "_password"

abbrev ssid_key : String
ssid_key = "_ssid"

keys_differ : password_key ≢ ssid_key
keys_differ e = let same : true ≡ false = ap (str_eq password_key) e in cc same

-- A text with its NUL.
abbrev pub stored : Bytes → Bytes
stored text = text ++ 0 ∷ []

-- The buffer that receives a text of this kind, and one NUL more.
abbrev pub filled : Bytes → Bytes → Bytes
filled buffer text = put (put buffer 0 (stored text)) (length (stored text)) (0 ∷ [])

module _ {S : Type 0} {nvs : Nvs S} (doc : Dependable nvs) where
  -- The credentials are in the store.
  abbrev pub Has : S → Bytes → Bytes → Type 0
  Has s ssid password =
      (doc.lookup s "_ssid" ≡ some (stored ssid))
      × (doc.lookup s "_password" ≡ some (stored password))

  set_wifi_credentials-Has :
      (ssid password : Bytes) (w : Session S)
      → ((set_wifi_credentials nvs ssid password w).0 ≡ true)
        × Has (set_wifi_credentials nvs ssid password w).1.store ssid password
  unfolding set_wifi_credentials open_handle close_handle
  set_wifi_credentials-Has ssid password w =
      let s1 = (nvs.nvs_open w.store).1 in
      let s2 = (nvs.set_str "_ssid" ssid s1).1 in
      let s3 = (nvs.set_str "_password" password s2).1 in
      let s4 = (nvs.commit s3).1 in
      let ssid_there : doc.lookup s4 "_ssid" ≡ some (stored ssid) =
        doc.commit_keeps s3 "_ssid"
        ∙ doc.set_other "_password" "_ssid" password s2 keys_differ
        ∙ doc.set_same "_ssid" ssid s1 in
      let password_there : doc.lookup s4 "_password" ≡ some (stored password) =
        doc.commit_keeps s3 "_password" ∙ doc.set_same "_password" password s2 in
      rw
        (
          doc.open_ok w.store,
          doc.set_ok "_ssid" ssid s1,
          doc.set_ok "_password" password s2,
          doc.commit_ok s3,
        )
        (
          refl,
          (
            doc.close_keeps s4 "_ssid" ∙ ssid_there,
            doc.close_keeps s4 "_password" ∙ password_there,
          ),
        )

  get_text_lem :
      (key : String) (buffer text : Bytes) (w : Session S)
      → doc.lookup w.store key ≡ some (stored text)
      → get_text nvs key buffer w ≡ ((true, (length (stored text), filled buffer text)), w)
  unfolding get_text
  get_text_lem key buffer text w h =
      let pos : ltb 0 (length (stored text)) ≡ true =
        lt→ltb _ _ (omega (arith, length-append text (0 ∷ []))) in
      rw
        (
          doc.get_len_some key w.store (stored text) h,
          pos,
          doc.get_str_some key w.store (stored text) h,
        )
        refl

  pub get_wifi_credentials-Has :
      (ssid password a b : Bytes) (w : Session S)
      → Has w.store ssid password
      → (get_wifi_credentials nvs a b w).0 ≡ (true, (filled a ssid, filled b password))
  unfolding get_wifi_credentials open_handle close_handle
  get_wifi_credentials-Has ssid password a b w h =
      let w1 = record w { store = (nvs.nvs_open w.store).1; opened = w.opened + 1 } in
      let first = get_text_lem "_ssid" a ssid w1 (doc.open_keeps w.store "_ssid" ∙ h.0) in
      let second =
        get_text_lem "_password" b password w1 (doc.open_keeps w.store "_password" ∙ h.1) in
      let more : (length (stored ssid) == 0) ≡ false =
        ground (arith, length-append ssid (0 ∷ [])) in
      rw (doc.open_ok w.store, first, second, more) refl

  -- Whatever the room in the buffers: what lies behind them is part of the lists here.
  pub get_wifi_credentials-filled :
      (ssid password a b : Bytes) (w : Session S)
      → ((set_wifi_credentials nvs ssid password w).0 ≡ true)
        × ((get_wifi_credentials nvs a b (set_wifi_credentials nvs ssid password w).1).0
            ≡ (true, (filled a ssid, filled b password)))
  get_wifi_credentials-filled ssid password a b w =
      let (done, has) = set_wifi_credentials-Has ssid password w in
      (
        done,
        get_wifi_credentials-Has ssid password a b (set_wifi_credentials nvs ssid password w).1 has,
      )

  -- Where no call of the storage library fails and it keeps what is set, a parameter that was set
  -- is read back into a buffer with room for it and its NUL, if the buffer then holds a text that
  -- is not empty.
  pub get_params-set_params :
      (key : String) (value buffer : Bytes) (w : Session S)
      → 0 < length (c_string (stored value ++ drop (length value + 1) buffer))
      → length value + 1 ≤ length buffer
      → ((set_params nvs key value w).0 ≡ true)
        × ((get_params nvs key buffer (length buffer) (set_params nvs key value w).1).0
            ≡ (true, stored value ++ drop (length value + 1) buffer))
  unfolding set_params get_params open_handle close_handle
  get_params-set_params key value buffer w some_text room =
      let s1 = (nvs.nvs_open w.store).1 in
      let s2 = (nvs.set_str key value s1).1 in
      let s3 = (nvs.commit s2).1 in
      let s4 = nvs.nvs_close s3 in
      let s5 = (nvs.nvs_open s4).1 in
      let there : doc.lookup s5 key ≡ some (stored value) =
        doc.open_keeps s4 key
        ∙ doc.close_keeps s3 key
        ∙ doc.commit_keeps s2 key
        ∙ doc.set_same key value s1 in
      let size : length (stored value) ≡ length value + 1 = length-append value (0 ∷ []) in
      let fits : ltb (length buffer) (length (stored value)) ≡ false =
        le→ltb_false _ _ (omega (arith, size)) in
      let more : (length (c_string (stored value ++ drop (length value + 1) buffer)) == 0) ≡ false =
        ground arith in
      let zero_more : 0 + length (stored value) ≡ length value + 1 = omega (arith, size) in
      rw
        (
          doc.open_ok w.store,
          doc.set_ok key value s1,
          doc.commit_ok s2,
          doc.open_ok s4,
          doc.get_len_some key s5 (stored value) there,
          fits,
          doc.get_str_some key s5 (stored value) there,
          zero_more,
          more,
        )
        (refl, refl)
