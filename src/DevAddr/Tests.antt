-- ===== src/DevAddr/Tests.antt =====
-- Device addresses at work: 26:01:02:03 and the block 26000000/7.
use packet_handling.Base.{◌-◌, ◌*◌, ◌/◌, ◌^◌, ◌≤◌, ◌<◌, ◌≡◌, ◌↔◌, refl, true, arith}
use packet_handling.DevAddr.{uint32, dev_addr_has_prefix}
use packet_handling.DevAddr.Prefix.{Covers, has_prefix_length, has_prefix_iff}
use packet_handling.Samples.{device, device-IsAddr}

device_in_block : dev_addr_has_prefix device (38 * 2 ^ 24) 7 ≡ true
unfolding dev_addr_has_prefix
device_in_block = refl

has_prefix_length_example : (0 < 7) × (7 ≤ 32)
has_prefix_length_example = has_prefix_length device (38 * 2 ^ 24) 7 device_in_block

has_prefix_iff_example : (dev_addr_has_prefix device (38 * 2 ^ 24) 7 ≡ true) ↔ (
    (0 < 7)
    × (7 ≤ 32)
    × (uint32 device / 2 ^ (32 - 7) ≡ 38 * 2 ^ 24 / 2 ^ (32 - 7))
    × Covers (32 - 7) (uint32 device) (38 * 2 ^ 24))
has_prefix_iff_example = has_prefix_iff device (38 * 2 ^ 24) 7 device-IsAddr (omega arith)
