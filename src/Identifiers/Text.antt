-- ===== src/Identifiers/Text.antt =====
-- Which texts `UnmarshalText` takes, and for which ID (gateway/gateway.go).
use packet_handling.Base.{
  ℕ, ◌+◌, ◌*◌, ◌/◌, ◌%◌, ◌<◌, ◌≤◌, ◌≡◌, refl, ap, ◌∙◌, ◌↔◌, ◌&&◌, Option, none, some, List, [], ◌∷◌,
  map, arith, leb, if◌then◌else◌, length, Option-cases, inl, inr,
}
use packet_handling.Identifiers.{
  hex_digit, hex, hex_value, byte_of, decode_string, without_prefix, unmarshal_text,
}

-- An upper case letter of ASCII in lower case, any other byte as it is.
abbrev pub to_lower : ℕ → ℕ
to_lower c = if leb 65 c && leb c 90 then c + 32 else c

abbrev pub IsBytes : List ℕ → Type 0
IsBytes [] = Unit
IsBytes (b ∷ bs) = (b < 256) × IsBytes bs

-- What `hex_value` reads is the digit of the value, in either case.
hex_value_sound : (c v : ℕ) → hex_value c ≡ some v → (v < 16) × (to_lower c ≡ hex_digit v)
unfolding hex_value
hex_value_sound c v h = ground arith

hex_value_complete : (c v : ℕ) → v < 16 → to_lower c ≡ hex_digit v → hex_value c ≡ some v
unfolding hex_value
hex_value_complete c v l h = ground arith

byte_of-some :
    (x y : Option ℕ) (r : Option (List ℕ)) (id : List ℕ)
    → byte_of x y r ≡ some id
    → (u : ℕ) × (v : ℕ) × (bs : List ℕ) × (x ≡ some u)
      × (y ≡ some v)
      × (r ≡ some bs)
      × (id ≡ (u * 16 + v) ∷ bs)
byte_of-some (some u) (some v) (some bs) id h = (u, v, bs, refl, refl, refl, cc)
byte_of-some (some u) (some v) none id h = cc
byte_of-some (some u) none r id h = cc
byte_of-some none y r id h = cc

-- The two digits of a byte.
hex-byte :
    (u v : ℕ) (bs : List ℕ)
    → u < 16
    → v < 16
    → hex ((u * 16 + v) ∷ bs) ≡ hex_digit u ∷ hex_digit v ∷ hex bs
hex-byte u v bs p q =
    let e : (u * 16 + v) / 16 ≡ u = omega arith in
    let f : (u * 16 + v) % 16 ≡ v = omega arith in rw (e, f)

decode_sound :
    (text id : List ℕ) → decode_string text ≡ some id → (map to_lower text ≡ hex id) × IsBytes id
unfolding decode_string
decode_sound [] [] h = (refl, tt)
decode_sound [] (x ∷ id) h = cc
decode_sound (a ∷ []) id h = cc
decode_sound (a ∷ b ∷ text) id h =
    let (u, v, bs, x, y, r, e) =
      byte_of-some (hex_value a) (hex_value b) (decode_string text) id h in
    let (ul, ue) = hex_value_sound a u x in
    let (vl, ve) = hex_value_sound b v y in
    let (te, tb) = decode_sound text bs r in
    rw (e, hex-byte u v bs ul vl, ue, ve, te) (refl, (omega arith, tb))

decode_complete :
    (text id : List ℕ) → map to_lower text ≡ hex id → IsBytes id → decode_string text ≡ some id
unfolding decode_string
decode_complete [] [] h b = refl
decode_complete [] (x ∷ id) h b = cc
decode_complete (a ∷ []) [] h b = cc
decode_complete (a ∷ []) (x ∷ id) h b = cc
decode_complete (a ∷ b ∷ text) [] h p = cc
decode_complete (a ∷ b ∷ text) (x ∷ id) h p =
    let e : map to_lower text ≡ hex id = cc in
    let x_digits : (to_lower a ≡ hex_digit (x / 16)) × (to_lower b ≡ hex_digit (x % 16)) =
      (cc, cc) in
    let same : x / 16 * 16 + x % 16 ≡ x = omega arith in
    rw
      (
        hex_value_complete a (x / 16) (omega arith) x_digits.0,
        hex_value_complete b (x % 16) (omega arith) x_digits.1,
        decode_complete text id e p.1,
        same,
      )
      refl

-- `UnmarshalText` takes a text of two bytes or more for an ID exactly if what follows the `0x` or
-- `0X`, where it starts with one, is the hexadecimal form of the ID's 32 bytes in either case.
pub unmarshal_text_iff :
    (raw id : List ℕ)
    → (unmarshal_text raw ≡ some id) ↔ (
        (2 ≤ length raw)
        × (map to_lower (without_prefix raw) ≡ hex id)
        × (length id ≡ 32)
        × IsBytes id)
unfolding unmarshal_text
unmarshal_text_iff raw id = (there, back)
  where
    there :
        unmarshal_text raw ≡ some id
        → (2 ≤ length raw)
          × (map to_lower (without_prefix raw) ≡ hex id)
          × (length id ≡ 32)
          × IsBytes id
    there h = elim (Option-cases (decode_string (without_prefix raw))) [
      | inl n ↦ absurd (ground (arith, n))
      | inr (d, n) ↦
          let same : d ≡ id = ground (arith, n) in
          let ok = decode_sound (without_prefix raw) id (n ∙ ap some same) in
          (ground (arith, n), ok.0, ground (arith, n), ok.1)
    ]

    back :
        (2 ≤ length raw)
          × (map to_lower (without_prefix raw) ≡ hex id)
          × (length id ≡ 32)
          × IsBytes id
        → unmarshal_text raw ≡ some id
    back h = ground (arith, decode_complete (without_prefix raw) id h.1 h.3)
