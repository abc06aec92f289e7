-- ===== src/MapperPacket/LatLon.antt =====
-- The coordinates of a discovery packet (mapperpacket/packet.go).
use packet_handling.Base.{
  ℕ, ◌+◌, ◌*◌, ◌-◌, ◌/◌, ◌%◌, ◌^◌, ◌≤◌, ◌<◌, ◌≡◌, ◌∙◌, some, List, arith, length, length-drop,
}
use packet_handling.Base.Int.{ℤ, pos, negsuc, int32, uint32_of, tenth, ten_times}
use packet_handling.MapperPacket.{
  BitOffset, bits, IsBitOffset, payload, packet_from_bytes, latitude, longitude,
}

-- The distance from zero.
abbrev pub size : ℤ → ℕ
size (pos n) = n
size (negsuc n) = n + 1

-- How a mapper writes a longitude in millionths of a degree, after `TestLon`: ten times the number
-- as a `uint32`, divided by ten, in 29 bits.
abbrev pub written_longitude : ℤ → ℕ
written_longitude i = uint32_of (ten_times i) / 10 % 2 ^ 29

read_longitude :
    (i : ℤ) → size i ≤ 180000000 → tenth (int32 (written_longitude i * 10 % 2 ^ 32)) ≡ i
read_longitude (pos n) h = ground arith
read_longitude (negsuc n) h = ground arith

module _ (bo : BitOffset) (is_bo : IsBitOffset bo) (phy : List ℕ)
    (taken : packet_from_bytes phy ≡ some phy) where
  long_enough : length (payload phy) ≡ 78
  unfolding packet_from_bytes
  long_enough = ground (arith, taken, length-drop 9 phy)

  -- The longitude of a discovery packet is the one that the mapper wrote, for every one from 180
  -- degrees west to 180 degrees east.
  pub longitude_lem :
      (i : ℤ)
      → size i ≤ 180000000
      → bits (payload phy) 32 29 ≡ written_longitude i
      → longitude bo phy ≡ i
  unfolding longitude
  longitude_lem i h w =
      let e = is_bo.uint32_lem (payload phy) 32 29 (omega (arith, long_enough)) (omega arith) ∙ w in
      rw e (read_longitude i h)

  -- A southern latitude of up to 90 degrees that a mapper writes as the two's complement in 28 bits
  -- reads as one of more than 90 degrees north.
  pub latitude_north :
      (n : ℕ)
      → n < 90000000
      → bits (payload phy) 4 28 ≡ 2 ^ 28 - (n + 1)
      → (m : ℕ) × (latitude bo phy ≡ pos m) × (90000000 < m)
  unfolding latitude
  latitude_north n h w =
      let e = is_bo.uint32_lem (payload phy) 4 28 (omega (arith, long_enough)) (omega arith) ∙ w in
      (2 ^ 28 - (n + 1), rw e (ground arith), omega arith)
