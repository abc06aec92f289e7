-- ===== src/MapperPacket/Tests.antt =====
-- Tests of the coordinates of discovery packets (mapperpacket/packet.go).
use packet_handling.Base.{ℕ, zero, suc, ◌<◌, ◌≡◌, refl, some, List, [], ◌∷◌, ◌++◌, arith}
use packet_handling.Base.Int.{pos, negsuc}
use packet_handling.MapperPacket.{
  BitOffset, bits, IsBitOffset, packet_from_bytes, latitude, longitude,
}
use packet_handling.MapperPacket.LatLon.{longitude_lem, latitude_north}

abbrev bit_offset : BitOffset
bit_offset = record {
  set_uint8 = λ b o n v. b;
  uint8 = bits;
  uint32 = bits;
  int32 = λ b o n. pos (bits b o n);
}

is_bit_offset : IsBitOffset bit_offset
is_bit_offset = record { uint32_lem = λ b o n h k. refl }

abbrev zeros : ℕ → List ℕ
zeros zero = []
zeros (suc n) = 0 ∷ zeros n

-- One millionth of a degree south, and 8 east.
abbrev phy : List ℕ
phy = zeros 9 ++ 15 ∷ 255 ∷ 255 ∷ 255 ∷ 0 ∷ 0 ∷ 0 ∷ 64 ∷ zeros 70

-- A packet of `TestDiscoveryPacket_LatLon`: 53.262706 north, 6.194345 west.
abbrev east_of_greenwich : List ℕ
east_of_greenwich = zeros 9 ++ 3 ∷ 44 ∷ 185 ∷ 114 ∷ 201 ∷ 216 ∷ 167 ∷ 128 ∷ zeros 70

coordinates_of_test :
    (latitude bit_offset east_of_greenwich ≡ pos 53262706)
    × (longitude bit_offset east_of_greenwich ≡ negsuc 6194344)
unfolding latitude longitude
coordinates_of_test = (refl, refl)

taken : packet_from_bytes phy ≡ some phy
unfolding packet_from_bytes
taken = refl

longitude_lem_example : longitude bit_offset phy ≡ pos 8
longitude_lem_example = longitude_lem bit_offset is_bit_offset phy taken (pos 8) (omega arith) refl

latitude_north_example : (m : ℕ) × (latitude bit_offset phy ≡ pos m) × (90000000 < m)
latitude_north_example = latitude_north bit_offset is_bit_offset phy taken 0 (omega arith) refl
