-- ===== src/SmartConfig/Xor.antt =====
-- The laws of the native exclusive or, `^` of C on unsigned integers, from its digits.
use Prim.Native.Nat.{differ, bit_xor, bit_xor-bitwise}
use hsbsw.SmartConfig.Digits.{bitwise_step}
use hsbsw.Prelude.{ℕ, zero, suc, ◌+◌, ◌*◌, ◌/◌, ◌%◌, ◌^◌, ◌≤◌, ◌<◌, ◌≡◌, ◌∙◌, refl, ap, arith}

pub zero-bit_xor : (b : ℕ) → bit_xor 0 b ≡ b
zero-bit_xor b = bit_xor-bitwise 0 b

differ_bits : (x y : ℕ) → x < 2 → y < 2 → differ x y ≡ (x + y) % 2
differ_bits zero y p q = omega arith
differ_bits (suc zero) zero p q = refl
differ_bits (suc zero) (suc zero) p q = refl
differ_bits (suc zero) (suc (suc y)) p q = absurd (omega arith)
differ_bits (suc (suc x)) y p q = absurd (omega arith)

-- The law for the lowest digit.
pub bit_xor_step : (a b : ℕ) → bit_xor a b ≡ 2 * bit_xor (a / 2) (b / 2) + (a % 2 + b % 2) % 2
bit_xor_step a b = omega (
  arith,
  bit_xor-bitwise a b,
  bit_xor-bitwise (a / 2) (b / 2),
  bitwise_step (λ y. y) differ (λ y. omega arith) a b,
  differ_bits (a % 2) (b % 2) (omega arith) (omega arith),
)

-- Induction over the digits of all arguments, which a bound counts.
comm_below : (n a b : ℕ) → a ≤ n → b ≤ n → bit_xor a b ≡ bit_xor b a
comm_below zero zero zero h k = refl
comm_below zero zero (suc b) h k = absurd (omega arith)
comm_below zero (suc a) b h k = absurd (omega arith)
comm_below (suc n) a b h k = omega (
  arith,
  bit_xor_step a b,
  bit_xor_step b a,
  comm_below n (a / 2) (b / 2) (omega arith) (omega arith),
)

pub bit_xor_comm : (a b : ℕ) → bit_xor a b ≡ bit_xor b a
bit_xor_comm a b = comm_below (a + b) a b (omega arith) (omega arith)

assoc_below :
    (n a b c : ℕ) → a ≤ n → b ≤ n → c ≤ n → bit_xor (bit_xor a b) c ≡ bit_xor a (bit_xor b c)
assoc_below zero zero zero zero h k l = refl
assoc_below zero (suc a) b c h k l = absurd (omega arith)
assoc_below zero zero (suc b) c h k l = absurd (omega arith)
assoc_below zero zero zero (suc c) h k l = absurd (omega arith)
assoc_below (suc n) a b c h k l =
    let l' = bit_xor_step a b in
    let r' = bit_xor_step b c in
    let x : bit_xor a b / 2 ≡ bit_xor (a / 2) (b / 2) = omega arith in
    let y : bit_xor b c / 2 ≡ bit_xor (b / 2) (c / 2) = omega arith in
    let ih = assoc_below n (a / 2) (b / 2) (c / 2) (omega arith) (omega arith) (omega arith) in
    omega (
      arith,
      bit_xor_step (bit_xor a b) c,
      bit_xor_step a (bit_xor b c),
      ap (λ t. bit_xor t (c / 2)) x,
      ap (λ t. bit_xor (a / 2) t) y,
    )

pub bit_xor_assoc : (a b c : ℕ) → bit_xor (bit_xor a b) c ≡ bit_xor a (bit_xor b c)
bit_xor_assoc a b c = assoc_below (a + b + c) a b c (omega arith) (omega arith) (omega arith)

self_below : (n a : ℕ) → a ≤ n → bit_xor a a ≡ 0
self_below zero zero h = refl
self_below zero (suc a) h = absurd (omega arith)
self_below (suc n) a h = omega (arith, bit_xor_step a a, self_below n (a / 2) (omega arith))

pub bit_xor_self : (a : ℕ) → bit_xor a a ≡ 0
bit_xor_self a = self_below a a (omega arith)

pub bit_xor-zero : (a : ℕ) → bit_xor a 0 ≡ a
bit_xor-zero a = bit_xor_comm a 0 ∙ zero-bit_xor a

pub half_mod : (m a : ℕ) → 0 < m → a % (2 * m) ≡ 2 * (a / 2 % m) + a % 2
half_mod m a h = grind arith

double_mod :
    (m : ℕ)
    → 0 < m
    → ((a b : ℕ) → bit_xor a b % m ≡ bit_xor (a % m) (b % m))
    → (a b : ℕ) → bit_xor a b % (2 * m) ≡ bit_xor (a % (2 * m)) (b % (2 * m))
double_mod m pos h a b =
    let p = half_mod m a pos in
    let q = half_mod m b pos in
    let p' : a % (2 * m) / 2 ≡ a / 2 % m = omega arith in
    let q' : b % (2 * m) / 2 ≡ b / 2 % m = omega arith in
    let r = bit_xor_step a b in
    let e : bit_xor (a % (2 * m) / 2) (b % (2 * m) / 2) ≡ bit_xor (a / 2 % m) (b / 2 % m) =
      λ i. bit_xor (p' i) (q' i) in
    let x : bit_xor a b / 2 ≡ bit_xor (a / 2) (b / 2) = omega arith in
    omega (
      arith,
      half_mod m (bit_xor a b) pos,
      ap (λ t. t % m) x,
      h (a / 2) (b / 2),
      bit_xor_step (a % (2 * m)) (b % (2 * m)),
      e,
    )

pub two_pow_pos : (k : ℕ) → 0 < 2 ^ k
two_pow_pos zero = omega arith
two_pow_pos (suc k) = omega (arith, two_pow_pos k)

-- The lowest digits of the result are those of the arguments' lowest digits.
pub bit_xor-mod : (k a b : ℕ) → bit_xor a b % 2 ^ k ≡ bit_xor (a % 2 ^ k) (b % 2 ^ k)
bit_xor-mod zero a b =
    let p : a % 1 ≡ 0 = omega arith in let q : b % 1 ≡ 0 = omega arith in rw (p, q) (omega arith)
bit_xor-mod (suc k) a b =
    let e : 2 ^ suc k ≡ 2 * 2 ^ k = omega arith in
    rw e (double_mod (2 ^ k) (two_pow_pos k) (bit_xor-mod k) a b)
