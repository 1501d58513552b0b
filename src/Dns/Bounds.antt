-- ===== src/Dns/Bounds.antt =====
-- The memory that components/app_local_server/dns_server.c writes, on any datagram.
use captive_portal_esp.Base.{
  ℕ, zero, suc, ◌+◌, ◌-◌, ◌≤◌, ◌≡◌, refl, true, false, Option, none, some, [], ◌∷◌, ◌++◌, ltb, ◌==◌,
  length, take, drop, length-append, length-take, length-drop, Bool-cases, inl, inr, arith,
}
use captive_portal_esp.Bytes.{Bytes}
use captive_portal_esp.Text.{put}
use captive_portal_esp.Dns.{byte, parse_labels, Parsed, failed, no_reply, reply_of}

-- A name found ends at most 129 bytes behind its start.
abbrev EndsBy : ℕ → Option (ℕ × Bytes) → Type 0
EndsBy limit none = Unit
EndsBy limit (some (name_end, name)) = name_end ≤ limit

gt_false : (a b : ℕ) → ltb a b ≡ false → b ≤ a
gt_false a b h = ground arith

parse_labels-EndsBy :
    (fuel : ℕ) (packet : Bytes) (label : ℕ) (name : Bytes) (name_len : ℕ)
    → name_len ≤ 128
    → EndsBy (label + (129 - name_len)) (parse_labels fuel packet label name name_len)
unfolding parse_labels
parse_labels-EndsBy zero packet label name name_len h = tt
parse_labels-EndsBy (suc fuel) packet label name name_len h =
    let n = byte packet label in
    elim (Bool-cases (ltb 128 (name_len + (n + 1)))) [
      | inl long ↦ rw (EndsBy, long) tt
      | inr short ↦
          let fits = gt_false _ _ short in
          elim (Bool-cases (byte packet (label + (n + 1)) == 0)) [
            | inl last ↦ rw (EndsBy, short, last) (omega (arith, fits))
            | inr more ↦
                let rest =
                  parse_labels-EndsBy fuel packet (label + (n + 1))
                    (name ++ (take n (drop (label + 1) packet) ++ (46 ∷ []))) (name_len + (n + 1))
                    fits in
                let same : label + (n + 1) + (129 - (name_len + (n + 1)))
                    ≡ label + (129 - name_len) =
                  omega (arith, fits) in
                rw (EndsBy, short, more) (rw same at rest)
          ]
    ]

-- The loop of `parse_dns_name` ends within 129 rounds: more fuel changes nothing.
pub parse_labels_enough_fuel :
    (fuel more : ℕ) (packet : Bytes) (label : ℕ) (name : Bytes) (name_len : ℕ)
    → 129 ≤ fuel + name_len
    → parse_labels (fuel + more) packet label name name_len
      ≡ parse_labels fuel packet label name name_len
unfolding parse_labels
parse_labels_enough_fuel zero zero packet label name name_len h = refl
parse_labels_enough_fuel zero (suc more) packet label name name_len h =
    let same : 0 + suc more ≡ suc more = omega arith in
    let long : ltb 128 (name_len + (byte packet label + 1)) ≡ true = ground arith in
    rw same (rw (parse_labels, long) refl)
parse_labels_enough_fuel (suc fuel) more packet label name name_len h =
    let same : suc fuel + more ≡ suc (fuel + more) = omega arith in
    let n = byte packet label in
    let rest =
      parse_labels_enough_fuel fuel more packet (label + (n + 1))
        (name ++ (take n (drop (label + 1) packet) ++ (46 ∷ []))) (name_len + (n + 1))
        (omega arith) in
    rw same (elim (Bool-cases (ltb 128 (name_len + (n + 1)))) [
      | inl long ↦ rw (parse_labels, long) refl
      | inr short ↦ elim (Bool-cases (byte packet (label + (n + 1)) == 0)) [
        | inl last ↦ rw (parse_labels, short, last) refl
        | inr further ↦ rw (parse_labels, short, further) rest
      ]
    ])

pub length-put :
    (b : Bytes) (offset : ℕ) (text : Bytes)
    → offset + length text ≤ length b
    → length (put b offset text) ≡ length b
length-put b offset text h = omega (
  arith,
  length-append (take offset b) (text ++ drop (offset + length text) b),
  length-append text (drop (offset + length text) b),
  length-take offset b,
  length-drop (offset + length text) b,
)

-- What the loop leaves has the length of what it got.
abbrev Sized : ℕ → Option Bytes → Type 0
Sized n none = Unit
Sized n (some reply) = length reply ≡ n

-- The reply's length is that of the request and its answers, and the buffer is as long as it was.
abbrev pub InBounds : ℕ → ℕ → Parsed → Type 0
InBounds max expected failed = Unit
InBounds max expected no_reply = Unit
InBounds max expected (reply_of n reply) = (n ≡ expected) × (n ≤ max) × (length reply ≡ max)
