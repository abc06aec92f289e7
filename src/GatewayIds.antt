-- ===== src/GatewayIds.antt =====
-- How a gateway's network ID follows from its key: gateway/store.go (GatewayNetworkIDFromPrivateKey,
-- GatewayPublicKeyToID, BytesToGatewayID) and CompressedPubKeyBytes of gateway/gateway.go. A digest
-- of SHA-256 is the number that its 32 bytes spell; the function itself is a parameter.
pub mod Agree
use packet_handling.Base.{
  ℕ, zero, suc, ◌+◌, ◌*◌, ◌/◌, ◌^◌, Option, none, some, List, [], ◌∷◌, ◌==◌, if◌then◌else◌, length,
  drop,
}
use packet_handling.Base.Time.{be_bytes}

-- `h[0:8]` of a digest, as an EUI64
abbrev pub first_eight : ℕ → ℕ
first_eight digest = digest / 256 ^ 24

-- The ThingsIX ID is the compressed public key without its first byte.
unfoldable pub network_id_of_id : (List ℕ → ℕ) → ℕ → ℕ
network_id_of_id sha256 thingsix_id = first_eight (sha256 (be_bytes 32 thingsix_id))

unfoldable pub gateway_public_key_to_id : (List ℕ → ℕ) → List ℕ → Option ℕ
gateway_public_key_to_id sha256 key =
    if length key == 33 then some (first_eight (sha256 (drop 1 key))) else none

unfoldable pub compressed_pub_key_bytes : ℕ → List ℕ
compressed_pub_key_bytes thingsix_id = 2 ∷ be_bytes 32 thingsix_id

-- `BytesToGatewayID`: the number that eight bytes spell
abbrev pub be_number : ℕ → List ℕ → ℕ
be_number acc [] = acc
be_number acc (b ∷ bs) = be_number (acc * 256 + b) bs

unfoldable pub bytes_to_gateway_id : List ℕ → Option ℕ
bytes_to_gateway_id id = if length id == 8 then some (be_number 0 id) else none
