-- ===== src/Identifiers.antt =====
-- The text form of a ThingsIX ID (gateway/gateway.go), and new private keys (GeneratePrivateKey and
-- DeriveThingsIxID of utils/thingsix.go, GenerateNewGateway). An ID is its 32 bytes, a text the list
-- of its bytes. go-ethereum's CompressPubkey and GenerateKey are parameters.
pub mod Text
pub mod Fresh
mod Tests
use packet_handling.Base.{
  ℕ, zero, suc, ◌+◌, ◌-◌, ◌*◌, ◌/◌, ◌%◌, Bool, true, false, ◌&&◌, ◌||◌, Option, none, some, List,
  [], ◌∷◌, ltb, leb, ◌==◌, if◌then◌else◌, length, drop,
}
use packet_handling.GatewayIds.{be_number, network_id_of_id}
use packet_handling.GatewayStore.{Gateway}

-- A digit of `%x`
abbrev pub hex_digit : ℕ → ℕ
hex_digit v = if ltb v 10 then 48 + v else 87 + v

-- `fmt.Sprintf("%x", bytes)`
abbrev pub hex : List ℕ → List ℕ
hex [] = []
hex (b ∷ bs) = hex_digit (b / 16) ∷ hex_digit (b % 16) ∷ hex bs

-- `ThingsIxID.String`, `MarshalText`
unfoldable pub marshal_text : List ℕ → List ℕ
marshal_text id = 48 ∷ 120 ∷ hex id

-- `fromHexChar` of encoding/hex
unfoldable pub hex_value : ℕ → Option ℕ
hex_value c =
    if leb 48 c && leb c 57
    then some (c - 48)
    else if leb 97 c && leb c 102
    then some (c - 87)
    else if leb 65 c && leb c 70
    then some (c - 55)
    else none

abbrev pub byte_of : Option ℕ → Option ℕ → Option (List ℕ) → Option (List ℕ)
byte_of (some a) (some b) (some bs) = some ((a * 16 + b) ∷ bs)
byte_of _ _ _ = none

-- `hex.DecodeString`
unfoldable pub decode_string : List ℕ → Option (List ℕ)
decode_string [] = some []
decode_string (a ∷ []) = none
decode_string (a ∷ b ∷ text) = byte_of (hex_value a) (hex_value b) (decode_string text)

-- The test for `0x` or `0X`, on a text of at least two bytes
abbrev pub without_prefix : List ℕ → List ℕ
without_prefix (a ∷ b ∷ text) = if a == 48 && (b == 120 || b == 88) then text else a ∷ b ∷ text
without_prefix text = text

-- `UnmarshalText`
unfoldable pub unmarshal_text : List ℕ → Option (List ℕ)
unmarshal_text raw =
    if ltb (length raw) 2 then none else elim (decode_string (without_prefix raw)) [
      | none ↦ none
      | some id ↦ if length id == 32 then some id else none
    ]

-- The result of `GeneratePrivateKey`; `running` is no Go value: the fuel is used up.
pub data Generated : Type 0 where
  key : ℕ → Generated
  failed running : Generated

module _ (compress_pubkey : ℕ → List ℕ) where
  -- `compressedPub[0] == 0x02`
  abbrev pub has_prefix_2 : ℕ → Bool
  has_prefix_2 k = elim (compress_pubkey k) [ [] ↦ false | b ∷ bs ↦ b == 2 ]

  -- The loop: `draw i` is what the i-th call of `crypto.GenerateKey` gives, `none` an error.
  unfoldable pub generate_private_key : (ℕ → Option ℕ) → ℕ → ℕ → Generated
  generate_private_key draw zero i = running
  generate_private_key draw (suc fuel) i =
      let again = generate_private_key draw fuel (suc i) in
      elim (draw i) [ none ↦ failed | some k ↦ if has_prefix_2 k then key k else again ]

  -- `DeriveThingsIxID`, as the number that the 32 bytes spell
  unfoldable pub derive_thingsix_id : ℕ → ℕ
  derive_thingsix_id k = be_number 0 (drop 1 (compress_pubkey k))

  -- `GenerateNewGateway`, which leaves `PublicKeyBytes` empty
  unfoldable pub generate_new_gateway : (List ℕ → ℕ) → (ℕ → Option ℕ) → ℕ → ℕ → Option Gateway
  generate_new_gateway sha256 draw fuel local_id = elim (generate_private_key draw fuel 0) [
    | failed ↦ none
    | running ↦ none
    | key k ↦ some (record {
      local_id = local_id;
      network_id = network_id_of_id sha256 (derive_thingsix_id k);
      private_key = k;
      public_key_bytes = [];
      thingsix_id = derive_thingsix_id k;
      owner = none;
      version = none;
      details = none;
    })
  ]
