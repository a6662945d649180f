-- ===== src/Prelude/Bits.antt =====
-- `CHECK_BIT(a, b)` of include/hsb_config.h: whether bit b of a is set.
use Prim.Native.Nat.{ℕ, ◌^◌, bit_and}
use mathlib.Core.Bool.{Bool, not}
use hsbsw.Prelude.Tests.{◌==◌}

unfoldable pub check_bit : ℕ → ℕ → Bool
check_bit a b = not (bit_and a (2 ^ b) == 0)
