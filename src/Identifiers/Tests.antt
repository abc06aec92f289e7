-- ===== src/Identifiers/Tests.antt =====
-- Tests of the text form of IDs and of new gateways (gateway/gateway.go, utils/thingsix.go).
use packet_handling.Base.{
  ℕ, ◌+◌, ◌*◌, ◌≡◌, refl, ◌↔◌, ◌≤◌, Option, none, some, List, [], ◌∷◌, map, arith, length, ◌==◌,
  if◌then◌else◌,
}
use packet_handling.Base.Time.{be_bytes}
use packet_handling.Samples.{hash}
use packet_handling.GatewayIds.{compressed_pub_key_bytes}
use packet_handling.GatewayStore.{Gateway}
use packet_handling.Identifiers.{
  hex, decode_string, without_prefix, marshal_text, unmarshal_text, generate_new_gateway,
}
use packet_handling.Identifiers.Text.{to_lower, IsBytes, unmarshal_text_iff}
use packet_handling.Identifiers.Fresh.{generate_new_gateway_first}

abbrev some_id : List ℕ
some_id = be_bytes 32 (171 * 256 + 205)

reads_back : unmarshal_text (marshal_text some_id) ≡ some some_id
unfolding unmarshal_text marshal_text decode_string packet_handling.Identifiers.hex_value
reads_back = refl

too_short : unmarshal_text (48 ∷ 120 ∷ []) ≡ none
unfolding unmarshal_text decode_string
too_short = refl

unmarshal_text_iff_example : (unmarshal_text (48 ∷ 88 ∷ hex some_id) ≡ some some_id) ↔ (
    (2 ≤ length (48 ∷ 88 ∷ hex some_id))
    × (map to_lower (without_prefix (48 ∷ 88 ∷ hex some_id)) ≡ hex some_id)
    × (length some_id ≡ 32)
    × IsBytes some_id)
unmarshal_text_iff_example = unmarshal_text_iff (48 ∷ 88 ∷ hex some_id) some_id

-- The compressed form of key k is 3 or 2 and the 32 bytes of k.
abbrev compress : ℕ → List ℕ
compress k = (if k == 7 then 3 else 2) ∷ be_bytes 32 k

abbrev draws : ℕ → Option ℕ
draws i = some (i + 7)

generate_new_gateway_first_example :
    (gw : Gateway) × (generate_new_gateway compress hash draws 5 9 ≡ some gw)
    × (gw.local_id ≡ 9)
    × (gw.private_key ≡ 8)
    × (compressed_pub_key_bytes gw.thingsix_id ≡ compress 8)
generate_new_gateway_first_example =
    generate_new_gateway_first compress draws hash 1 5 9 8 ((7, refl, refl), tt) refl refl refl
      (omega arith) (omega arith)
