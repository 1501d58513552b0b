-- ===== src/Dns/Packet.antt =====
-- The bytes of a query and of a reply of components/app_local_server/dns_server.c, and one round of the loop over
-- the questions.
use captive_portal_esp.Base.{
  ℕ, zero, suc, ◌+◌, ◌*◌, ◌≡◌, refl, ap, ◌∙◌, some, ◌∷◌, ◌++◌, ◌==◌, if◌then◌else◌, length, take,
  drop, take-append, arith,
}
use captive_portal_esp.Bytes.{Bytes}
use captive_portal_esp.Text.{put, zeros, drop_past}
use captive_portal_esp.Dns.{byte, read_be16, parse_dns_name, answer, answer_questions}
use captive_portal_esp.Dns.Name.{get_or-append}

-- Behind a name come the bytes behind its zero.
pub byte_behind :
    (pre enc post : Bytes) (i : ℕ)
    → byte (pre ++ (enc ++ (0 ∷ post))) (length pre + length enc + 1 + i) ≡ byte post i
byte_behind pre enc post i =
    let a : length pre + length enc + 1 + i ≡ length pre + (length enc + (suc i)) = omega arith in
    rw a (
      get_or-append pre (enc ++ (0 ∷ post)) (length enc + suc i) (length pre) refl
      ∙ get_or-append enc (0 ∷ post) (suc i) (length enc) refl)

-- Writing over what stands behind some bytes.
pub put_over :
    (b tail text : Bytes) → put (b ++ tail) (length b) text ≡ b ++ (text ++ drop (length text) tail)
put_over b tail text =
    let kept : take (length b) (b ++ tail) ≡ b = take-append (length b) b tail refl in
    rw (kept, drop_past b tail (length text)) refl

pub zeros-append : (a b : ℕ) → zeros (a + b) ≡ zeros a ++ zeros b
zeros-append zero b = let same : 0 + b ≡ b = omega arith in rw same refl
zeros-append (suc a) b =
    let same : suc a + b ≡ suc (a + b) = omega arith in rw same (ap (◌∷◌ 0) (zeros-append a b))

-- A round of the loop on a question of any type.
pub a_question :
    (ip packet : Bytes) (n req_len name_end type class : ℕ) (name : Bytes)
    → parse_dns_name packet 12 ≡ some (name_end, name)
    → read_be16 packet name_end ≡ type
    → read_be16 packet (name_end + 2) ≡ class
    → answer_questions ip (suc n) req_len packet
      ≡ answer_questions ip n req_len
          (if type == 1 then put packet req_len (answer ip 12 type class) else packet)
unfolding answer_questions
a_question ip packet n req_len name_end type class name found of_type in_class =
    rw (answer_questions, found, of_type, in_class) refl

-- The type and the class behind a name.
pub question_behind :
    (pre enc rest : Bytes) (t0 t1 c0 c1 : ℕ)
    → let packet = pre ++ (enc ++ (0 ∷ (t0 ∷ t1 ∷ c0 ∷ c1 ∷ rest))) in
      let name_end : ℕ = length pre + length enc + 1 in
      (read_be16 packet name_end ≡ 256 * t0 + t1)
      × (read_be16 packet (name_end + 2) ≡ 256 * c0 + c1)
question_behind pre enc rest t0 t1 c0 c1 =
    let post : Bytes = t0 ∷ t1 ∷ c0 ∷ c1 ∷ rest in
    let e : ℕ = length pre + length enc + 1 in
    let packet : Bytes = pre ++ (enc ++ (0 ∷ post)) in
    let here : e + 0 ≡ e = omega arith in
    let third : e + 3 ≡ e + 2 + 1 = omega arith in
    let b0 : byte packet e ≡ t0 = rw here at (byte_behind pre enc post 0) in
    let b1 : byte packet (e + 1) ≡ t1 = byte_behind pre enc post 1 in
    let b2 : byte packet (e + 2) ≡ c0 = byte_behind pre enc post 2 in
    let b3 : byte packet (e + 2 + 1) ≡ c1 = rw third at (byte_behind pre enc post 3) in
    (rw (b0, b1) refl, rw (b2, b3) refl)
