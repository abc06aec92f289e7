-- ===== src/DevAddr.antt =====
-- Device addresses: forwarder/utils.go (SetDevAddrPrefix, DevAddrHasPrefix) and utils/lorawan.go
-- (NetIDType). A DevAddr is four bytes, the first the most significant one.
pub mod Prefix
pub mod NetId
mod Tests
use Prim.Native.Nat.{bit_and, bit_or}
use packet_handling.Base.{
  ℕ, zero, suc, ◌+◌, ◌-◌, ◌*◌, ◌/◌, ◌%◌, ◌^◌, ◌<◌, Bool, false, ◌&&◌, ◌||◌, ◌==◌, ltb,
  if◌then◌else◌, Option, none, some,
}

pub record DevAddr : Type 0 where
  pub b0 : ℕ
  pub b1 : ℕ
  pub b2 : ℕ
  pub b3 : ℕ

-- `binary.BigEndian.Uint32(addr[:])`
abbrev pub uint32 : DevAddr → ℕ
uint32 a = ((a.b0 * 256 + a.b1) * 256 + a.b2) * 256 + a.b3

-- `binary.BigEndian.PutUint32(addr[:], u)`
abbrev pub put_uint32 : ℕ → DevAddr
put_uint32 u = record {
  b0 = u / 2 ^ 24 % 256;
  b1 = u / 2 ^ 16 % 256;
  b2 = u / 2 ^ 8 % 256;
  b3 = u % 256;
}

-- `==` on arrays of four bytes
abbrev pub same_addr : DevAddr → DevAddr → Bool
same_addr a b = a.b0 == b.b0 && (a.b1 == b.b1 && (a.b2 == b.b2 && a.b3 == b.b3))

-- `x << s` on uint32, and `a &^ b`
abbrev pub shl32 : ℕ → ℕ → ℕ
shl32 x s = x * 2 ^ s % 2 ^ 32

abbrev pub and_not32 : ℕ → ℕ → ℕ
and_not32 a b = bit_and a (2 ^ 32 - 1 - b)

-- `32 - maskLength` is a uint8 and wraps before it is widened.
pub set_dev_addr_prefix : DevAddr → ℕ → ℕ → DevAddr
set_dev_addr_prefix addr prefix mask_length =
    let shift = (32 + 256 - mask_length) % 256 in
    let cleared = and_not32 (uint32 addr) (shl32 (2 ^ 32 - 1) shift) in
    put_uint32 (bit_or cleared prefix)

unfoldable pub dev_addr_has_prefix : DevAddr → ℕ → ℕ → Bool
unfolding set_dev_addr_prefix
dev_addr_has_prefix addr prefix mask =
    if mask == 0 || ltb 32 mask
    then false
    else same_addr (set_dev_addr_prefix addr prefix mask) addr

-- The loop of `NetIDType`, with `i + 1` rounds left; `none` stands for its result -1.
unfoldable pub net_id_type_from : ℕ → ℕ → Option ℕ
net_id_type_from zero first = none
net_id_type_from (suc i) first =
    let rest = net_id_type_from i first in if bit_and first (2 ^ i) == 0 then some (7 - i) else rest

unfoldable pub net_id_type : DevAddr → Option ℕ
net_id_type a = net_id_type_from 8 a.b0

pub record IsAddr (a : DevAddr) : Type 0 where
  pub b0 : a.b0 < 256
  pub b1 : a.b1 < 256
  pub b2 : a.b2 < 256
  pub b3 : a.b3 < 256
