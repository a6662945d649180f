-- ===== src/SmartConfig/And.antt =====
-- Masks of ones, `x & (2^k - 1)`, as remainders.
use Prim.Native.Nat.{min, bit_and, bit_and-bitwise}
use hsbsw.SmartConfig.Digits.{bitwise_step}
use hsbsw.Prelude.{ℕ, zero, suc, ◌+◌, ◌-◌, ◌*◌, ◌/◌, ◌%◌, ◌^◌, ◌≤◌, ◌≡◌, ap, arith}
use hsbsw.SmartConfig.Xor.{half_mod, two_pow_pos}

-- The law for the lowest digit.
bit_and_step : (a b : ℕ) → bit_and a b ≡ 2 * bit_and (a / 2) (b / 2) + min (a % 2) (b % 2)
bit_and_step a b = omega (
  arith,
  bit_and-bitwise a b,
  bit_and-bitwise (a / 2) (b / 2),
  bitwise_step (λ y. 0) min (λ y. omega arith) a b,
)

no_mask : (bound a : ℕ) → a ≤ bound → bit_and a 0 ≡ 0
no_mask zero zero h = bit_and-bitwise 0 0
no_mask zero (suc a) h = absurd (omega arith)
no_mask (suc bound) a h = omega (arith, bit_and_step a 0, no_mask bound (a / 2) (omega arith))

pub bit_and_mask : (k a : ℕ) → bit_and a (2 ^ k - 1) ≡ a % 2 ^ k
bit_and_mask zero a = omega (arith, no_mask a a (omega arith))
bit_and_mask (suc k) a =
    let e : 2 ^ suc k ≡ 2 * 2 ^ k = omega arith in
    let pos = two_pow_pos k in
    let h : (2 * 2 ^ k - 1) / 2 ≡ 2 ^ k - 1 = omega arith in
    let o : (2 * 2 ^ k - 1) % 2 ≡ 1 = omega arith in
    rw e (
      omega (
        arith,
        bit_and_step a (2 * 2 ^ k - 1),
        ap (λ (t : ℕ). bit_and (a / 2) t) h,
        bit_and_mask k (a / 2),
        half_mod (2 ^ k) a pos,
      ))

-- The four bits above the lowest four.
pub bit_and_high : (a : ℕ) → bit_and a 0xf0 / 16 ≡ a / 16 % 16
bit_and_high a = omega (
  arith,
  bit_and_step a 0xf0,
  bit_and_step (a / 2) 0x78,
  bit_and_step (a / 2 / 2) 0x3c,
  bit_and_step (a / 2 / 2 / 2) 0x1e,
  bit_and_mask 4 (a / 2 / 2 / 2 / 2),
)
