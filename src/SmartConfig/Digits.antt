-- ===== src/SmartConfig/Digits.antt =====
-- The native operations on binary digits, one digit at a time, whatever is done to the digits.
use Prim.Native.Nat.{digits, bitwise}
use hsbsw.Prelude.{ℕ, zero, suc, ◌+◌, ◌*◌, ◌/◌, ◌%◌, ◌≤◌, ◌≡◌, ◌∙◌, refl, sym, ap, arith}

-- `f` works on two digits, and `z` gives the result when the first number has run out.
module _ (z : ℕ → ℕ) (f : ℕ → ℕ → ℕ) where
  run_out : (count b : ℕ) → digits z f count 0 b ≡ z b
  run_out zero b = refl
  run_out (suc count) b = refl

  -- The count of digits to go does not matter if it is large enough.
  same_digits : (few many a b : ℕ) → a ≤ few → a ≤ many → digits z f few a b ≡ digits z f many a b
  same_digits few many zero b h k = run_out few b ∙ sym (run_out many b)
  same_digits zero many (suc a) b h k = absurd (omega arith)
  same_digits (suc few) zero (suc a) b h k = absurd (omega arith)
  same_digits (suc few) (suc many) (suc a) b h k =
      ap (λ t. t * 2 + f (suc a % 2) (b % 2))
        (same_digits few many (suc a / 2) (b / 2) (omega arith) (omega arith))

  -- The law for the lowest digit, if it holds where the first number has run out.
  pub bitwise_step :
      ((b : ℕ) → z b ≡ z (b / 2) * 2 + f 0 (b % 2))
      → (a b : ℕ) → bitwise z f a b ≡ bitwise z f (a / 2) (b / 2) * 2 + f (a % 2) (b % 2)
  bitwise_step rest zero b = rest b
  bitwise_step rest (suc a) b =
      ap (λ t. t * 2 + f (suc a % 2) (b % 2))
        (same_digits a (suc a / 2) (suc a / 2) (b / 2) (omega arith) (omega arith))
