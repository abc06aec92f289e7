-- ===== src/MapperPacket.antt =====
-- The packets of mappers: mapperpacket/packet.go. A packet is its bytes. The module bitoffset, which
-- reads and writes bit fields, is a parameter.
pub mod LatLon
mod Tests
use packet_handling.Base.{
  ℕ, zero, suc, ◌+◌, ◌-◌, ◌*◌, ◌/◌, ◌%◌, ◌^◌, ◌≤◌, ◌≡◌, Option, none, some, List, [], ◌∷◌, ◌++◌,
  ◌==◌, if◌then◌else◌, length, take, drop,
}
use packet_handling.Base.Int.{ℤ, int32, tenth}
use packet_handling.DevAddr.{DevAddr}
use packet_handling.GatewayIds.{be_number}

-- The functions of bitoffset: the bytes, the first bit, the number of bits.
pub record BitOffset : Type 0 where
  pub set_uint8 : List ℕ → ℕ → ℕ → ℕ → List ℕ
  pub uint8 : List ℕ → ℕ → ℕ → ℕ
  pub uint32 : List ℕ → ℕ → ℕ → ℕ
  pub int32 : List ℕ → ℕ → ℕ → ℤ

-- The number that `n` bits from bit `o` on spell, the highest bit of the first byte being bit 0.
abbrev pub bits : List ℕ → ℕ → ℕ → ℕ
bits b o n = be_number 0 b / 2 ^ (8 * length b - o - n) % 2 ^ n

-- What the module says of `Uint32`.
pub record IsBitOffset (bo : BitOffset) : Type 0 where
  pub uint32_lem :
      (b : List ℕ) (o n : ℕ) → o + n ≤ 8 * length b → n ≤ 32 → bo.uint32 b o n ≡ bits b o n

-- `Payload`
abbrev pub payload : List ℕ → List ℕ
payload phy = drop 9 phy

-- `NewDiscoveryPacketFromBytes` and `NewDownlinkConfirmationPacketFromBytes`
unfoldable pub packet_from_bytes : List ℕ → Option (List ℕ)
packet_from_bytes phy = if length phy == 9 + 13 + 65 then some phy else none

module _ (bo : BitOffset) where
  -- `SetFType`, `SetDevAddr`, `SetFPort`, `DevAddr`
  unfoldable pub set_ftype : ℕ → List ℕ → List ℕ
  set_ftype ftype b = bo.set_uint8 b 0 3 ftype

  unfoldable pub set_dev_addr : DevAddr → List ℕ → List ℕ
  set_dev_addr a b =
      let b = bo.set_uint8 b (8 + 24) 8 a.b0 in
      let b = bo.set_uint8 b (8 + 16) 8 a.b1 in
      let b = bo.set_uint8 b (8 + 8) 8 a.b2 in bo.set_uint8 b 8 8 a.b3

  unfoldable pub set_fport : ℕ → List ℕ → List ℕ
  set_fport fport b = bo.set_uint8 b (8 * 8) 8 fport

  unfoldable pub dev_addr : List ℕ → DevAddr
  dev_addr b = record {
    b0 = bo.uint8 b (8 + 24) 8;
    b1 = bo.uint8 b (8 + 16) 8;
    b2 = bo.uint8 b (8 + 8) 8;
    b3 = bo.uint8 b 8 8;
  }

  -- The fields of a discovery packet: `Version`, `LatLon` in millionths of a degree, `TOW`
  unfoldable pub version : List ℕ → ℕ
  version phy = bo.uint8 (payload phy) 0 4

  unfoldable pub latitude : List ℕ → ℤ
  latitude phy = int32 (bo.uint32 (payload phy) 4 28)

  unfoldable pub longitude : List ℕ → ℤ
  longitude phy = tenth (int32 (bo.uint32 (payload phy) 32 29 * 10 % 2 ^ 32))

  unfoldable pub tow : List ℕ → ℕ
  tow phy = bo.uint32 (payload phy) 84 20

  -- `GnssSecurityStatus`, `Spoofing`
  unfoldable pub gnss_security_status : List ℕ → ℕ
  gnss_security_status phy = bo.uint8 (payload phy) 74 2

  unfoldable pub spoofing : List ℕ → ℕ
  spoofing phy = bo.uint8 (payload phy) 76 2

  -- The fields of a confirmation: `Rssi`, `Snr`, `Battery`, `Flags`, `Challenge`
  unfoldable pub rssi : List ℕ → ℤ
  rssi phy = bo.int32 (payload phy) 4 16

  unfoldable pub snr : List ℕ → ℤ
  snr phy = bo.int32 (payload phy) 20 8

  unfoldable pub battery : List ℕ → ℕ
  battery phy = bo.uint8 (payload phy) 28 8

  unfoldable pub flags : List ℕ → ℕ
  flags phy = bo.uint8 (payload phy) 36 4

unfoldable pub challenge : List ℕ → List ℕ
challenge phy = take 8 (drop 5 (payload phy))

-- `NewDownlinkTransmitPacket`, and `SetChallenge` on a challenge of at least eight bytes
abbrev zeros : ℕ → List ℕ
zeros zero = []
zeros (suc n) = 0 ∷ zeros n

abbrev pub new_downlink_transmit_packet : List ℕ
new_downlink_transmit_packet = zeros (9 + 8)

unfoldable pub set_challenge : List ℕ → List ℕ → List ℕ
set_challenge bytes b = take 9 b ++ (take 8 bytes ++ drop 17 b)
