-- ===== src/Server/GetData/Tokens.antt =====
-- The tokens that `strtok` finds, one after another, are the pieces between commas that are not empty.
use captive_portal_esp.Base.{
  ℕ, ◌+◌, ◌*◌, ◌≤◌, ◌<◌, ◌≡◌, refl, sym, ap, ◌∙◌, false, Option, none, some, List, [], ◌∷◌, ◌==◌,
  if◌then◌else◌, length, arith, subst, ◌⊎◌, Bool-cases, inl, inr,
}
use captive_portal_esp.Bytes.{Bytes}
use captive_portal_esp.CString.{IsText, IsText-tail}
use captive_portal_esp.Server.GetData.Texts.{IsText-token_of}
use captive_portal_esp.Server.GetData.{skip_commas, token_of, after_token, strtok}

abbrev on_first : ℕ → List Bytes → List Bytes
on_first c [] = (c ∷ []) ∷ []
on_first c (piece ∷ pieces) = (c ∷ piece) ∷ pieces

-- The pieces between commas.
abbrev pub split : Bytes → List Bytes
split [] = [] ∷ []
split (c ∷ cs) = if c == b',' then [] ∷ split cs else on_first c (split cs)

abbrev pub some_only : List Bytes → List Bytes
some_only [] = []
some_only ([] ∷ pieces) = some_only pieces
some_only ((c ∷ cs) ∷ pieces) = (c ∷ cs) ∷ some_only pieces

-- The names in a text, separated by commas.
abbrev pub names : Bytes → List Bytes
names text = some_only (split text)

names-skip_commas : (text : Bytes) → names (skip_commas text) ≡ names text
names-skip_commas [] = refl
names-skip_commas (c ∷ cs) = elim (Bool-cases (c == b',')) [
  | inl is_comma ↦ rw is_comma (names-skip_commas cs)
  | inr other ↦ rw (other, other) refl
]

split_first :
    (text : Bytes)
    → (pieces : List Bytes) × (split text ≡ token_of text ∷ pieces)
      × (some_only pieces ≡ names (after_token text))
split_first [] = ([], refl, refl)
split_first (c ∷ cs) = elim (Bool-cases (c == b',')) [
  | inl is_comma ↦ rw is_comma (split cs, refl, refl)
  | inr other ↦ let (pieces, e, rest) = split_first cs in rw (other, e) (pieces, refl, rest)
]

-- What one call of `strtok` finds.
pub data Found (text : Bytes) : Option (Bytes × Bytes) → Type 0 where
  nothing : names text ≡ [] → Found text none
  token :
      (t rest : Bytes)
      → names text ≡ t ∷ names rest
      → 0 < length t
      → length t + length rest ≤ length text
      → (IsText text → IsText t × IsText rest)
      → Found text (some (t, rest))

length-skip_commas : (text : Bytes) → length (skip_commas text) ≤ length text
length-skip_commas [] = omega arith
length-skip_commas (c ∷ cs) = ground (arith, length-skip_commas cs)

length-token_of : (text : Bytes) → length (token_of text) + length (after_token text) ≤ length text
length-token_of [] = omega arith
length-token_of (c ∷ cs) = ground (arith, length-token_of cs)

IsText-skip_commas : (text : Bytes) → IsText text → IsText (skip_commas text)
IsText-skip_commas [] h = refl
IsText-skip_commas (c ∷ cs) h = elim (Bool-cases (c == b',')) [
  | inl is_comma ↦ rw is_comma (IsText-skip_commas cs (IsText-tail c cs h).1)
  | inr other ↦ rw other h
]

skip_commas_cases :
    (text : Bytes)
    → (skip_commas text ≡ [])
      ⊎ ((c : ℕ) × (cs : Bytes) × (skip_commas text ≡ c ∷ cs) × ((c == b',') ≡ false))
skip_commas_cases [] = inl refl
skip_commas_cases (c ∷ cs) = elim (Bool-cases (c == b',')) [
  | inl is_comma ↦ rw is_comma (skip_commas_cases cs)
  | inr other ↦ rw other (inr (c, cs, refl, other))
]

Found-token :
    (text : Bytes) (c : ℕ) (cs : Bytes)
    → skip_commas text ≡ c ∷ cs
    → (c == b',') ≡ false
    → Found text (some (token_of (c ∷ cs), after_token (c ∷ cs)))
Found-token text c cs e other =
    let (pieces, first, later) = split_first (c ∷ cs) in
    let begun : token_of (c ∷ cs) ≡ c ∷ token_of cs = rw other refl in
    let whole : names text ≡ token_of (c ∷ cs) ∷ names (after_token (c ∷ cs)) =
      sym (names-skip_commas text)
      ∙ ap names e
      ∙ ap some_only first
      ∙ ap (λ t. some_only (t ∷ pieces)) begun
      ∙ ap (◌∷◌ (c ∷ token_of cs)) later
      ∙ ap (λ t. t ∷ names (after_token (c ∷ cs))) (sym begun) in
    token (token_of (c ∷ cs)) (after_token (c ∷ cs)) whole (omega (arith, ap length begun))
      (omega (arith, length-token_of (c ∷ cs), length-skip_commas text, ap length e))
      (λ h. IsText-token_of (c ∷ cs) (subst (λ x. IsText x) e (IsText-skip_commas text h)))

pub strtok-Found : (text : Bytes) → Found text (strtok text)
unfolding strtok
strtok-Found text = elim (skip_commas_cases text) [
  | inl none_left ↦
      rw (strtok, none_left) (nothing (sym (names-skip_commas text) ∙ ap names none_left))
  | inr (c, cs, e, other) ↦ rw (strtok, e) (Found-token text c cs e other)
]

abbrev weight : List Bytes → ℕ
weight [] = 0
weight (piece ∷ pieces) = length piece + 1 + weight pieces

weight-on_first :
    (c : ℕ) (pieces : List Bytes)
    → 0 < weight pieces
    → weight (on_first c pieces) ≡ weight pieces + 1
weight-on_first c [] h = absurd (omega arith)
weight-on_first c (piece ∷ pieces) h = omega arith

weight-split : (text : Bytes) → weight (split text) ≡ length text + 1
weight-split [] = omega arith
weight-split (c ∷ cs) = elim (Bool-cases (c == b',')) [
  | inl is_comma ↦ rw is_comma (omega (arith, weight-split cs))
  | inr other ↦ rw other (omega (arith, weight-split cs, weight-on_first c (split cs)))
]

length-some_only : (pieces : List Bytes) → 2 * length (some_only pieces) ≤ weight pieces
length-some_only [] = omega arith
length-some_only ([] ∷ pieces) = omega (arith, length-some_only pieces)
length-some_only ((c ∷ cs) ∷ pieces) = omega (arith, length-some_only pieces)

-- There is a comma between two names.
pub length-names : (text : Bytes) → 2 * length (names text) ≤ length text + 1
length-names text = omega (arith, weight-split text, length-some_only (split text))
