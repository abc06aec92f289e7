-- ===== src/Base/Time.antt =====
-- Times and durations are nanoseconds, and the big-endian bytes of a number.
use Prim.Native.Nat.{ℕ, zero, suc, ◌*◌, ◌/◌, ◌%◌, ◌^◌}
use mathlib.Core.List.{List, [], ◌∷◌}

abbrev pub millisecond : ℕ
millisecond = 1000000

abbrev pub second : ℕ
second = 1000 * millisecond

abbrev pub minute : ℕ
minute = 60 * second

-- The `w` low bytes of a number, the most significant one first.
abbrev pub be_bytes : ℕ → ℕ → List ℕ
be_bytes zero n = []
be_bytes (suc w) n = (n / 256 ^ w % 256) ∷ be_bytes w n
