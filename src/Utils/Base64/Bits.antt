-- ===== src/Utils/Base64/Bits.antt =====
-- The masks and shifts of the base64 functions of lib/utils.c as arithmetic: tables over a byte.
use Prim.Native.Nat.{bit_and, bit_or}
use hsbsw.Prelude.{
  ℕ, zero, suc, ◌+◌, ◌*◌, ◌/◌, ◌%◌, ◌<◌, ◌≡◌, refl, sym, ap, ◌∙◌, Bool, true, ◌==◌, ◌&&◌, arith,
}
use hsbsw.Utils.Base64.{b64_char}
use hsbsw.Utils.Base64.Reference.{digit}

module _ (f g : ℕ → ℕ) where
  unfoldable pub all_same : ℕ → Bool
  all_same zero = true
  all_same (suc n) = (f n == g n) && all_same n

  pub same_below : (n : ℕ) → all_same n ≡ true → (i : ℕ) → i < n → f i ≡ g i
  unfolding all_same
  same_below zero e i h = absurd (omega arith)
  same_below (suc n) e i h = ground (arith, same_below n (ground (arith, e)) i, e)

pub high_six : (a : ℕ) → a < 256 → bit_and 0x3f (a / 4) ≡ a / 4
unfolding all_same
high_six = same_below _ _ 256 refl

pub low_two : (a : ℕ) → a < 256 → bit_and (a * 16) 0x30 ≡ 16 * (a % 4)
unfolding all_same
low_two = same_below _ _ 256 refl

pub high_four : (b : ℕ) → b < 256 → bit_and (b / 16) 0x0f ≡ b / 16
unfolding all_same
high_four = same_below _ _ 256 refl

pub low_four : (b : ℕ) → b < 256 → bit_and (b * 4) 0x3c ≡ 4 * (b % 16)
unfolding all_same
low_four = same_below _ _ 256 refl

pub low_four' : (b : ℕ) → b < 256 → bit_and (b * 4) 0x3f ≡ 4 * (b % 16)
unfolding all_same
low_four' = same_below _ _ 256 refl

pub high_two : (c : ℕ) → c < 256 → bit_and (c / 64) 0x03 ≡ c / 64
unfolding all_same
high_two = same_below _ _ 256 refl

pub low_six : (c : ℕ) → c < 256 → bit_and 0x3f c ≡ c % 64
unfolding all_same
low_six = same_below _ _ 256 refl

-- Numbers whose bits do not meet.
or_16 : (n : ℕ) → n < 256 → bit_or (16 * (n / 16)) (n % 16) ≡ n
unfolding all_same
or_16 = same_below _ _ 256 refl

or_4 : (n : ℕ) → n < 256 → bit_or (4 * (n / 4)) (n % 4) ≡ n
unfolding all_same
or_4 = same_below _ _ 256 refl

or_64 : (n : ℕ) → n < 256 → bit_or (64 * (n / 64)) (n % 64) ≡ n
unfolding all_same
or_64 = same_below _ _ 256 refl

or_parts :
    (m x y n : ℕ) → n / m ≡ x → n % m ≡ y → bit_or (m * (n / m)) (n % m) ≡ n → bit_or (m * x) y ≡ n
or_parts m x y n q r e =
    sym (ap (λ z. bit_or (m * z) y) q) ∙ sym (ap (λ z. bit_or (m * (n / m)) z) r) ∙ e

pub or_below_16 : (x y : ℕ) → x < 16 → y < 16 → bit_or (16 * x) y ≡ 16 * x + y
or_below_16 x y h k =
    or_parts 16 x y (16 * x + y) (omega arith) (omega arith) (or_16 (16 * x + y) (omega arith))

pub or_below_4 : (x y : ℕ) → x < 64 → y < 4 → bit_or (4 * x) y ≡ 4 * x + y
or_below_4 x y h k =
    or_parts 4 x y (4 * x + y) (omega arith) (omega arith) (or_4 (4 * x + y) (omega arith))

pub or_below_64 : (x y : ℕ) → x < 4 → y < 64 → bit_or (64 * x) y ≡ 64 * x + y
or_below_64 x y h k =
    or_parts 64 x y (64 * x + y) (omega arith) (omega arith) (or_64 (64 * x + y) (omega arith))

pub b64_char-digit : (v : ℕ) → v < 64 → b64_char v ≡ digit v
unfolding all_same b64_char
b64_char-digit = same_below _ _ 64 refl
