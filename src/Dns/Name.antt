-- ===== src/Dns/Name.antt =====
-- `parse_dns_name` of components/app_local_server/dns_server.c.
use mathlib.Core.List.{append-nil, append_assoc}
use captive_portal_esp.Base.{
  ℕ, zero, suc, ◌+◌, ◌-◌, ◌≤◌, ◌<◌, ◌≡◌, refl, sym, ap, ◌∙◌, true, false, some, List, [], ◌∷◌, ◌++◌,
  ◌==◌, le→ltb_false, length, take, drop, get_or, length-append, take-append, arith,
}
use captive_portal_esp.Bytes.{Bytes}
use captive_portal_esp.Text.{put, drop_past}
use captive_portal_esp.Dns.{byte, parse_labels, parse_dns_name}

-- The name in a message: each label behind its length, and a zero.
abbrev pub encode_labels : List Bytes → Bytes
encode_labels [] = []
encode_labels (l ∷ ls) = length l ∷ (l ++ encode_labels ls)

-- The labels with a dot behind each.
abbrev pub dotted : List Bytes → Bytes
dotted [] = []
dotted (l ∷ ls) = l ++ (46 ∷ dotted ls)

abbrev pub NonEmpty : List Bytes → Type 0
NonEmpty [] = Unit
NonEmpty (l ∷ ls) = (0 < length l) × NonEmpty ls

pub get_or-append :
    (pre post : Bytes) (i n : ℕ) → length pre ≡ n → get_or (pre ++ post) (n + i) 0 ≡ get_or post i 0
get_or-append [] post i zero h = let same : 0 + i ≡ i = omega arith in rw same refl
get_or-append [] post i (suc n) h = absurd (omega arith)
get_or-append (x ∷ pre) post i zero h = absurd (omega arith)
get_or-append (x ∷ pre) post i (suc n) h =
    let same : suc n + i ≡ suc (n + i) = omega arith in
    rw same (get_or-append pre post i n (omega arith))

length-dotted : (ls : List Bytes) → length (dotted ls) ≡ length (encode_labels ls)
length-dotted [] = refl
length-dotted (l ∷ ls) =
    omega (
      arith,
      length-append l (46 ∷ dotted ls),
      length-append l (encode_labels ls),
      length-dotted ls,
    )

-- Reading at the end of what precedes.
byte_at : (pre post : Bytes) → byte (pre ++ post) (length pre) ≡ byte post 0
byte_at pre post =
    let same : length pre + 0 ≡ length pre = omega arith in
    rw same at (get_or-append pre post 0 (length pre) refl)

module _ (fuel : ℕ) (pre l tail name : Bytes) (h : length name + (length l + 1) ≤ 128) where
  abbrev packet : Bytes
  packet = pre ++ (length l ∷ (l ++ tail))

  abbrev next_name : Bytes
  next_name = name ++ (l ++ (46 ∷ []))

  first : byte packet (length pre) ≡ length l
  first = byte_at pre (length l ∷ (l ++ tail))

  label : take (length l) (drop (length pre + 1) packet) ≡ l
  label =
      ap (take (length l)) (drop_past pre (length l ∷ (l ++ tail)) 1)
      ∙ take-append (length l) l tail refl

  next : byte packet (length pre + (length l + 1)) ≡ byte tail 0
  next =
      let zero_more : length l + 0 ≡ length l = omega arith in
      let one_more : length l + 1 ≡ suc (length l) = omega arith in
      get_or-append pre (length l ∷ (l ++ tail)) (length l + 1) (length pre) refl
      ∙ rw one_more (rw zero_more at (get_or-append l tail 0 (length l) refl))

  parse_labels_last :
      (byte tail 0 == 0) ≡ true
      → parse_labels (suc fuel) packet (length pre) name (length name)
        ≡ some (
          length pre + (length l + 1) + 1,
          put next_name (length name + (length l + 1) - 1) (0 ∷ []),
        )
  unfolding parse_labels
  parse_labels_last last =
      rw (parse_labels, first, le→ltb_false 128 _ h, first, next, last, first, label) refl

  parse_labels_more :
      (byte tail 0 == 0) ≡ false
      → parse_labels (suc fuel) packet (length pre) name (length name)
        ≡ parse_labels fuel packet
            (length pre + (length l + 1))
            next_name
            (length name + (length l + 1))
  unfolding parse_labels
  parse_labels_more more =
      rw (parse_labels, first, le→ltb_false 128 _ h, first, next, more, first, label) refl

-- The loop, at the start of a name whose labels are not empty, reads them and stops behind the zero.
parse_labels_lem :
    (fuel : ℕ) (l : Bytes) (ls : List Bytes) (pre post name : Bytes)
    → NonEmpty ls
    → length name + length (encode_labels (l ∷ ls)) ≤ 128
    → length (encode_labels (l ∷ ls)) ≤ fuel
    → parse_labels fuel
        (pre ++ (encode_labels (l ∷ ls) ++ (0 ∷ post)))
        (length pre)
        name
        (length name)
      ≡ some (
        length pre + length (encode_labels (l ∷ ls)) + 1,
        put (name ++ dotted (l ∷ ls)) (length name + length (encode_labels (l ∷ ls)) - 1) (0 ∷ []),
      )
parse_labels_lem zero l ls pre post name e h f = absurd (omega arith)
parse_labels_lem (suc fuel) l [] pre post name e h f =
    let one_more : length l + 1 ≡ suc (length l) = omega arith in
    let whole : l ++ [] ≡ l = append-nil l in
    rw (whole, ← one_more)
      (parse_labels_last fuel pre l (0 ∷ post) name (omega (arith, h, length-append l [])) refl)
parse_labels_lem (suc fuel) l (m ∷ ls) pre post name e h f =
    let rest : Bytes = encode_labels (m ∷ ls) in
    let tail : Bytes = rest ++ (0 ∷ post) in
    let dot : Bytes = 46 ∷ [] in
    let size : length (l ++ rest) ≡ length l + length rest = length-append l rest in
    let more : (length m == 0) ≡ false = ground arith in
    let step = parse_labels_more fuel pre l tail name (omega (arith, h, size)) more in
    let before : Bytes = pre ++ (length l ∷ l) in
    let label_at : length before ≡ length pre + (length l + 1) =
      omega (arith, length-append pre (length l ∷ l)) in
    let next_name : Bytes = name ++ (l ++ dot) in
    let name_size : length next_name ≡ length name + (length l + 1) =
      omega (arith, length-append name (l ++ dot), length-append l dot) in
    let ih =
      parse_labels_lem fuel m ls before post next_name e.1 (omega (arith, h, size))
        (omega (arith, f, size)) in
    let regroup : (l ++ rest) ++ (0 ∷ post) ≡ l ++ tail = append_assoc l rest (0 ∷ post) in
    let packets : pre ++ (length l ∷ (l ++ tail)) ≡ before ++ tail =
      sym (append_assoc pre (length l ∷ l) tail) in
    let ends : length before + length rest + 1 ≡ length pre + suc (length (l ++ rest)) + 1 =
      omega (arith, label_at, size) in
    let names : next_name ++ dotted (m ∷ ls) ≡ name ++ (l ++ (46 ∷ dotted (m ∷ ls))) =
      append_assoc name (l ++ dot) (dotted (m ∷ ls))
      ∙ ap (◌++◌ name) (append_assoc l dot (dotted (m ∷ ls))) in
    let last : length next_name + length rest - 1 ≡ length name + suc (length (l ++ rest)) - 1 =
      omega (arith, name_size, size) in
    let out : parse_labels fuel (pre ++ (length l ∷ (l ++ tail))) (length pre + (length l + 1))
          next_name (length name + (length l + 1))
        ≡ some (
          length pre + suc (length (l ++ rest)) + 1,
          put (name ++ (l ++ (46 ∷ dotted (m ∷ ls)))) (length name + suc (length (l ++ rest)) - 1)
              (0 ∷ []),
        ) =
      rw (packets, ← label_at, ← name_size, ← ends, ← names, ← last) ih in
    rw regroup (step ∙ out)

-- A name of one label or more, none but the first empty, of at most 128 bytes, is read from its
-- place in a message: the offset is that behind its zero, and the text is the labels with dots
-- between them and a NUL behind the last.
pub parse_dns_name-encode_labels :
    (l : Bytes) (ls : List Bytes) (pre post : Bytes)
    → NonEmpty ls
    → length (encode_labels (l ∷ ls)) ≤ 128
    → parse_dns_name (pre ++ (encode_labels (l ∷ ls) ++ (0 ∷ post))) (length pre)
      ≡ some (
        length pre + length (encode_labels (l ∷ ls)) + 1,
        put (dotted (l ∷ ls)) (length (dotted (l ∷ ls)) - 1) (0 ∷ []),
      )
unfolding parse_dns_name
parse_dns_name-encode_labels l ls pre post e h =
    let same : 0 + length (encode_labels (l ∷ ls)) ≡ length (dotted (l ∷ ls)) =
      omega (arith, length-dotted (l ∷ ls)) in
    rw same at (parse_labels_lem 129 l ls pre post [] e (omega (arith, h)) (omega (arith, h)))
