-- ===== src/Server/GetData/Texts.antt =====
-- Lengths of the answers to names, and texts with no NUL in them.
use captive_portal_esp.Base.{
  ◌≤◌, ◌≡◌, refl, true, [], ◌∷◌, ◌==◌, length, arith, Bool-cases, inl, inr,
}
use captive_portal_esp.Bytes.{Bytes}
use captive_portal_esp.CString.{IsText, IsText-tail, IsText-cons}
use captive_portal_esp.Server.GetData.{begins, contains, token_of, after_token}

pub IsText-token_of :
    (text : Bytes) → IsText text → IsText (token_of text) × IsText (after_token text)
IsText-token_of [] h = (refl, refl)
IsText-token_of (c ∷ cs) h =
    let (other, tail) = IsText-tail c cs h in
    let (first, rest) = IsText-token_of cs tail in
    elim (Bool-cases (c == b',')) [
      | inl is_comma ↦ rw is_comma (refl, tail)
      | inr more ↦ rw more (IsText-cons c (token_of cs) other first, rest)
    ]

begins-length : (part text : Bytes) → begins part text ≡ true → length part ≤ length text
begins-length [] text h = omega arith
begins-length (c ∷ cs) [] h = cc
begins-length (c ∷ cs) (d ∷ ds) h = ground (arith, begins-length cs ds)

pub contains-length : (part text : Bytes) → contains part text ≡ true → length part ≤ length text
unfolding contains
contains-length part [] h = begins-length part [] h
contains-length part (c ∷ cs) h =
    ground (arith, begins-length part (c ∷ cs), contains-length part cs)
