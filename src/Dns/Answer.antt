-- ===== src/Dns/Answer.antt =====
-- The reply of components/app_local_server/dns_server.c to a query whose first question has an uncompressed
-- name.
use mathlib.Core.List.{append_assoc}
use captive_portal_esp.Base.{
  ℕ, zero, suc, ◌+◌, ◌*◌, ◌-◌, ◌/◌, ◌%◌, ◌^◌, ◌≤◌, ◌<◌, ◌≡◌, refl, sym, ap, ◌∙◌, true, false, some,
  List, [], ◌∷◌, ◌++◌, ltb, ◌==◌, if◌then◌else◌, length, take, drop, length-append,
  length-replicate, take-append, le→ltb_false, arith, Bool-cases, inl, inr,
}
use captive_portal_esp.Bytes.{Bytes}
use captive_portal_esp.Text.{put, zeros, drop_past, drop-zeros}
use captive_portal_esp.Dns.{
  read_be16, parse_dns_name, answer, answer_questions, set_qr, set_header, parse_dns_request,
  respond,
}
use captive_portal_esp.Dns.Name.{encode_labels, NonEmpty, parse_dns_name-encode_labels}
use captive_portal_esp.Dns.Packet.{put_over, zeros-append, a_question, question_behind}

module _ (id0 id1 f0 f1 q0 q1 a0 a1 n0 n1 r0 r1 t0 t1 c0 c1 : ℕ) (l : Bytes) (ls : List Bytes)
    (extra : Bytes) where
  -- A question for a name: its type `256 * t0 + t1`, its class `256 * c0 + c1`, and what follows it.
  abbrev pub question : Bytes
  question = encode_labels (l ∷ ls) ++ (0 ∷ (t0 ∷ t1 ∷ c0 ∷ c1 ∷ extra))

  -- The header counts `256 * q0 + q1` questions.
  abbrev pub query : Bytes
  query = id0 ∷ id1 ∷ f0 ∷ f1 ∷ q0 ∷ q1 ∷ a0 ∷ a1 ∷ n0 ∷ n1 ∷ r0 ∷ r1 ∷ question

  abbrev head : Bytes
  head = id0 ∷ id1 ∷ (f0 % 128 + 128) ∷ f1 ∷ q0 ∷ q1 ∷ q0 ∷ q1 ∷ n0 ∷ n1 ∷ r0 ∷ r1 ∷ []

  -- The query with the response flag and as many answers counted as questions.
  abbrev pub echo : Bytes
  echo = head ++ question

  abbrev qd_type : ℕ
  qd_type = 256 * t0 + t1

  -- A pointer to the question, its type and class, 300 seconds, four bytes and the address.
  abbrev pub resource : Bytes → Bytes
  resource ip = 192 ∷ 12 ∷ t0 ∷ t1 ∷ c0 ∷ c1 ∷ 0 ∷ 0 ∷ 1 ∷ 44 ∷ 0 ∷ 4 ∷ ip

  -- One resource record if addresses are asked for, and 16 zeros for each other answer counted.
  abbrev pub answers : Bytes → ℕ → Bytes
  answers ip zero = []
  answers ip (suc n) = (if qd_type == 1 then resource ip else zeros 16) ++ zeros (n * 16)

  module _ (f0_range : f0 < 256) (f1_range : f1 < 256) (q0_range : q0 < 256) (q1_range : q1 < 256)
      (t0_range : t0 < 256) (t1_range : t1 < 256) (c0_range : c0 < 256) (c1_range : c1 < 256) where
    set_header_lem : (k : ℕ) → set_header (query ++ zeros k) ≡ echo ++ zeros k
    set_header_lem k =
        let low : set_qr (f0 + 256 * f1) % 256 ≡ f0 % 128 + 128 = ground arith in
        let high : set_qr (f0 + 256 * f1) / 256 % 256 ≡ f1 = ground arith in
        let count_high : (256 * q0 + q1) / 256 % 256 ≡ q0 = omega arith in
        let count_low : (256 * q0 + q1) % 256 ≡ q1 = omega arith in
        rw (low, high, count_high, count_low) refl

    resource_lem : (ip : Bytes) → answer ip 12 qd_type (256 * c0 + c1) ≡ resource ip
    resource_lem ip =
        let type_high : (256 * t0 + t1) / 256 % 256 ≡ t0 = omega arith in
        let type_low : (256 * t0 + t1) % 256 ≡ t1 = omega arith in
        let high : (256 * c0 + c1) / 256 % 256 ≡ c0 = omega arith in
        let low : (256 * c0 + c1) % 256 ≡ c1 = omega arith in
        rw (type_high, type_low, high, low) refl

    module _ (ip : Bytes) (ne : NonEmpty ls) (short : length (encode_labels (l ∷ ls)) ≤ 128) where
      -- A round of the loop on the request and any bytes behind it.
      one_round :
          (n : ℕ) (tail : Bytes)
          → answer_questions ip (suc n) (length query) (echo ++ tail)
            ≡ answer_questions ip n (length query) (
                if qd_type == 1
                then put (echo ++ tail) (length query) (resource ip)
                else echo ++ tail)
      one_round n tail =
          let enc : Bytes = encode_labels (l ∷ ls) in
          let rest : Bytes = extra ++ tail in
          let packets : echo ++ tail ≡ head ++ (enc ++ (0 ∷ (t0 ∷ t1 ∷ c0 ∷ c1 ∷ rest))) =
            ap (◌++◌ head) (append_assoc enc (0 ∷ (t0 ∷ t1 ∷ c0 ∷ c1 ∷ extra)) tail) in
          let (of_type, in_class) = question_behind head enc rest t0 t1 c0 c1 in
          let parsed = parse_dns_name-encode_labels l ls head (t0 ∷ t1 ∷ c0 ∷ c1 ∷ rest) ne short in
          a_question ip (echo ++ tail) n (length query) (12 + length enc + 1) qd_type
            (256 * c0 + c1) _ (ap (λ x. parse_dns_name x 12) packets ∙ parsed)
            (ap (λ x. read_be16 x (12 + length enc + 1)) packets ∙ of_type)
            (ap (λ x. read_be16 x (12 + length enc + 1 + 2)) packets ∙ in_class)
          ∙ ap
              (λ a.
                answer_questions ip n (length query)
                  (if qd_type == 1 then put (echo ++ tail) (length query) a else echo ++ tail))
              (resource_lem ip)

      -- Further rounds write the same record again, or nothing.
      record_again :
          (n : ℕ) (z : Bytes)
          → (qd_type == 1) ≡ true
          → answer_questions ip n (length query) (echo ++ (resource ip ++ z))
            ≡ some (echo ++ (resource ip ++ z))
      unfolding answer_questions
      record_again zero z is_a = refl
      record_again (suc n) z is_a =
          let over = put_over echo (resource ip ++ z) (resource ip) in
          let same : drop (length (resource ip)) (resource ip ++ z) ≡ z =
            let more : length (resource ip) ≡ length (resource ip) + 0 = omega arith in
            ap (λ m. drop m (resource ip ++ z)) more ∙ drop_past (resource ip) z 0 in
          one_round n (resource ip ++ z) ∙ rw (is_a, over, same) (record_again n z is_a)

      no_record :
          (n : ℕ) (tail : Bytes)
          → (qd_type == 1) ≡ false
          → answer_questions ip n (length query) (echo ++ tail) ≡ some (echo ++ tail)
      unfolding answer_questions
      no_record zero tail other = refl
      no_record (suc n) tail other = one_round n tail ∙ rw other (no_record n tail other)

      answer_questions_lem :
          (n k : ℕ)
          → length ip ≡ 4
          → 16 * n ≤ k
          → answer_questions ip n (length query) (echo ++ zeros k)
            ≡ some (echo ++ (answers ip n ++ zeros (k - 16 * n)))
      unfolding answer_questions
      answer_questions_lem zero k four room =
          let same : k - 16 * 0 ≡ k = omega arith in rw same refl
      answer_questions_lem (suc n) k four room =
          let left : k - length (resource ip) ≡ n * 16 + (k - 16 * suc n) =
            omega (arith, four, room) in
          let all : k ≡ 16 + (n * 16 + (k - 16 * suc n)) = omega (arith, room) in
          elim (Bool-cases (qd_type == 1)) [
            | inl is_a ↦
                let behind : drop (length (resource ip)) (zeros k)
                    ≡ zeros (n * 16) ++ zeros (k - 16 * suc n) =
                  drop-zeros (length (resource ip)) k
                  ∙ ap zeros left
                  ∙ zeros-append (n * 16) (k - 16 * suc n) in
                one_round n (zeros k)
                ∙ rw (is_a, put_over echo (zeros k) (resource ip), behind)
                    (record_again n (zeros (n * 16) ++ zeros (k - 16 * suc n)) is_a
                      ∙ ap (λ t. some (echo ++ t))
                          (sym (append_assoc (resource ip) (zeros (n * 16)) _)))
            | inr other ↦
                let zero_slots : zeros k ≡ zeros 16 ++ (zeros (n * 16) ++ zeros (k - 16 * suc n)) =
                  ap zeros all
                  ∙ zeros-append 16 _
                  ∙ ap (λ z. zeros 16 ++ z) (zeros-append (n * 16) _) in
                one_round n (zeros k)
                ∙ rw other (
                    no_record n (zeros k) other
                    ∙ ap (λ t. some (echo ++ t))
                        (zero_slots ∙ sym (append_assoc (zeros 16) (zeros (n * 16)) _)))
          ]

    length-answers : (ip : Bytes) (n : ℕ) → length ip ≡ 4 → length (answers ip n) ≡ n * 16
    length-answers ip zero four = refl
    length-answers ip (suc n) four =
        let behind : length (zeros (n * 16)) ≡ n * 16 = length-replicate (n * 16) 0 in
        elim (Bool-cases (qd_type == 1)) [
          | inl is_a ↦
              rw is_a (omega (arith, length-append (resource ip) (zeros (n * 16)), behind, four))
          | inr other ↦ rw other (omega (arith, length-append (zeros 16) (zeros (n * 16)), behind))
        ]

    -- A query whose first question has a name of at most 128 bytes, with opcode bits that the code
    -- accepts and room for as many answers as it counts questions, is answered: the reply is the
    -- query with the response flag and that answer count, then, if the first question is for an
    -- address, one resource record that points to its name and holds the address (16 zeros
    -- otherwise), then 16 zeros for each further question.
    pub respond-answers :
        (ip : Bytes)
        → NonEmpty ls
        → length (encode_labels (l ∷ ls)) ≤ 128
        → length ip ≡ 4
        → f1 / 8 % 16 ≡ 0
        → length query + 16 * (256 * q0 + q1) ≤ 256
        → respond ip query ≡ some (echo ++ answers ip (256 * q0 + q1))
    unfolding respond parse_dns_request
    respond-answers ip ne short four opcode room =
        let n : ℕ = 256 * q0 + q1 in
        let size : ℕ = length query in
        let k : ℕ = 256 - size in
        let fits : ltb 256 size ≡ false = le→ltb_false 256 size (omega (arith, room)) in
        let standard : ((f0 + 256 * f1) / 2 ^ 11 % 16 == 0) ≡ true = ground arith in
        let enough : ltb 256 (n * 16 + size) ≡ false = le→ltb_false 256 _ (omega (arith, room)) in
        let answered = answer_questions_lem ip ne short n k four (omega (arith, room)) in
        let cut : take (n * 16 + size) (echo ++ (answers ip n ++ zeros (k - 16 * n)))
            ≡ echo ++ answers ip n =
          ap (take (n * 16 + size)) (sym (append_assoc echo (answers ip n) (zeros (k - 16 * n))))
          ∙ take-append (n * 16 + size) (echo ++ answers ip n) _
              (omega (arith, length-append echo (answers ip n), length-answers ip n four)) in
        let positive : (n * 16 + size == 0) ≡ false = ground arith in
        rw (fits, standard, enough, set_header_lem k, answered, positive, cut) refl
