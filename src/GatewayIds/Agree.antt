-- ===== src/GatewayIds/Agree.antt =====
-- The network IDs that the forwarder and the router derive (gateway/store.go).
use packet_handling.Base.{ℕ, zero, suc, ◌≡◌, refl, some, List, length, ap}
use packet_handling.Base.Time.{be_bytes}
use packet_handling.GatewayIds.{
  network_id_of_id, gateway_public_key_to_id, compressed_pub_key_bytes,
}

pub length-be_bytes : (w n : ℕ) → length (be_bytes w n) ≡ w
length-be_bytes zero n = refl
length-be_bytes (suc w) n = ap suc (length-be_bytes w n)

-- The network ID that a router computes from the compressed public key in a message is the one that
-- the forwarder gave the gateway, by the same SHA-256.
pub key_to_id-compressed :
    (sha256 : List ℕ → ℕ) (thingsix_id : ℕ)
    → gateway_public_key_to_id sha256 (compressed_pub_key_bytes thingsix_id)
      ≡ some (network_id_of_id sha256 thingsix_id)
unfolding gateway_public_key_to_id compressed_pub_key_bytes network_id_of_id
key_to_id-compressed sha256 thingsix_id = refl
