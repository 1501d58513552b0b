-- ===== src/Storage/Buffers.antt =====
-- What the reads of components/spiffs_storage/spiffs_storage.c leave in their buffers.
use captive_portal_esp.Base.{
  ℕ, zero, suc, ◌+◌, ◌-◌, ◌≤◌, ◌≡◌, refl, sym, ap, ◌∙◌, false, [], ◌∷◌, ◌++◌, ◌==◌, length, take,
  drop, length-append, min, arith, Bool-cases, inl, inr,
}
use captive_portal_esp.Bytes.{Bytes}
use captive_portal_esp.Esp.{Env}
use captive_portal_esp.Storage.{first_line}
use captive_portal_esp.Storage.Spec.{overlay, line_of}

pub overlay_lem :
    (b buffer : Bytes)
    → take (length buffer) b ++ drop (length (take (length buffer) b)) buffer ≡ overlay b buffer
overlay_lem [] [] = refl
overlay_lem [] (x ∷ buffer) = refl
overlay_lem (c ∷ b) [] = refl
overlay_lem (c ∷ b) (x ∷ buffer) = ap (λ t. c ∷ t) (overlay_lem b buffer)

-- A text that fits is followed by what the buffer held.
pub overlay-fits :
    (b buffer : Bytes) → length b ≤ length buffer → overlay b buffer ≡ b ++ drop (length b) buffer
overlay-fits [] [] h = refl
overlay-fits [] (x ∷ buffer) h = refl
overlay-fits (c ∷ b) [] h = ground (arith, h)
overlay-fits (c ∷ b) (x ∷ buffer) h = ap (λ t. c ∷ t) (overlay-fits b buffer (omega (arith, h)))

module _ (env : Env) where
  take_none : (n : ℕ) → take {A = ℕ} n [] ≡ []
  take_none zero = refl
  take_none (suc n) = refl

  pub first_line-take : (n : ℕ) (b : Bytes) → first_line env n (take n b) ≡ take n (line_of b)
  unfolding first_line
  first_line-take zero b = refl
  first_line-take (suc n) [] = refl
  first_line-take (suc n) (c ∷ b) = elim (Bool-cases (c == 10)) [
    | inl t ↦ rw t (ap (λ l. c ∷ l) (sym (take_none n)))
    | inr f ↦ rw f (ap (λ t. c ∷ t) (first_line-take n b))
  ]

pub room : (n m k : ℕ) → k ≡ min (n - 1) m → (k == 0) ≡ false → k + 1 ≤ n
room n m k e f = ground (arith, e, f)

-- What `fgets` leaves in a buffer that the line fits.
pub line_fills :
    (line buffer : Bytes)
    → length line + 1 ≤ length buffer
    → (line ++ 0 ∷ []) ++ drop (length line + 1) buffer ≡ overlay (line ++ 0 ∷ []) buffer
line_fills line buffer h =
    let long : length (line ++ 0 ∷ []) ≡ length line + 1 = length-append line (0 ∷ []) in
    let fits = overlay-fits (line ++ 0 ∷ []) buffer (omega (arith, long, h)) in
    ap (λ n. (line ++ 0 ∷ []) ++ drop n buffer) (sym long) ∙ sym fits
