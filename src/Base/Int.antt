-- ===== src/Base/Int.antt =====
-- Integers over the native numbers: two's complement of 28, 29 and 32 bits, and division by ten.
use Prim.Native.Nat.{ℕ, zero, suc, ◌+◌, ◌-◌, ◌*◌, ◌/◌, ◌%◌, ◌^◌}
use packet_handling.Base.Tests.{ltb, if◌then◌else◌}

-- `negsuc n` is -(n + 1).
pub data ℤ : Type 0 where
  pos : ℕ → ℤ
  negsuc : ℕ → ℤ

abbrev pub negative : ℕ → ℤ
negative zero = pos 0
negative (suc n) = negsuc n

-- `int32(u)` of a `uint32`, and `uint32(i)`
abbrev pub int32 : ℕ → ℤ
int32 u = if ltb u (2 ^ 31) then pos u else negsuc (2 ^ 32 - 1 - u)

abbrev pub uint32_of : ℤ → ℕ
uint32_of (pos n) = n % 2 ^ 32
uint32_of (negsuc n) = 2 ^ 32 - 1 - n % 2 ^ 32

-- `i / 10`, which drops the fraction
abbrev pub tenth : ℤ → ℤ
tenth (pos n) = pos (n / 10)
tenth (negsuc n) = negative ((n + 1) / 10)

abbrev pub ten_times : ℤ → ℤ
ten_times (pos n) = pos (n * 10)
ten_times (negsuc n) = negsuc (n * 10 + 9)
