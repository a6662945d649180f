-- ===== src/Utils/Base64/Digits.antt =====
-- The decoder of lib/utils.c on one group of digits.
use Prim.Native.Nat.{bit_and}
use mathlib.Core.List.{append_assoc}
use hsbsw.Prelude.{
  ℕ, suc, ◌+◌, ◌*◌, ◌/◌, ◌%◌, ◌<◌, ◌≡◌, refl, ap, ◌∙◌, Bool, true, false, List, [], ◌∷◌, ◌++◌, none,
  some, arith, ◌==◌, if◌then◌else◌, Option-cases, inl, inr,
}
use hsbsw.Utils.Base64.{Decoder, reverse_table, decode_digit, decode_char, decode_loop}
use hsbsw.Utils.Base64.Reference.{digit}
use hsbsw.Utils.Base64.Bits.{all_same, same_below, or_below_16, or_below_4, or_below_64}

-- What the table says of a character, with 64 for nothing.
abbrev value : ℕ → ℕ
value v = elim (reverse_table (if digit v == 32 then 43 else digit v)) [ none ↦ 64 | some x ↦ x ]

abbrev flag : Bool → ℕ
flag b = if b then 1 else 0

flag-false : (b : Bool) → flag b ≡ 0 → b ≡ false
flag-false true e = absurd (omega (arith, e))
flag-false false e = refl

value-digit : (v : ℕ) → v < 64 → value v ≡ v
unfolding all_same reverse_table
value-digit = same_below _ _ 64 refl

digit-not_0 : (v : ℕ) → v < 64 → flag (digit v == 0) ≡ 0
unfolding all_same
digit-not_0 = same_below _ (λ v. 0) 64 refl

digit-not_pad : (v : ℕ) → v < 64 → flag (digit v == 61) ≡ 0
unfolding all_same
digit-not_pad = same_below _ (λ v. 0) 64 refl

decode_char-digit : (v : ℕ) (d : Decoder) → v < 64 → decode_char (digit v) d ≡ decode_digit v d
unfolding decode_char
decode_char-digit v d h =
    elim (Option-cases (reverse_table (if digit v == 32 then 43 else digit v))) [
      | inl n ↦ absurd (ground (arith, n, h, value-digit v h))
      | inr (x, e) ↦ ground (arith, e, h, value-digit v h)
    ]

goes_on :
    (ch : ℕ) (str : List ℕ) (len : ℕ) (d : Decoder)
    → (ch == 0) ≡ false
    → (ch == 61) ≡ false
    → decode_loop (ch ∷ str) (suc len) d ≡ decode_loop str len (decode_char ch d)
unfolding decode_loop
goes_on ch str len d e f = rw (e, f) refl

-- A digit does not end the loop.
loop_step :
    (v : ℕ) (str : List ℕ) (len : ℕ) (d : Decoder)
    → v < 64
    → decode_loop (digit v ∷ str) (suc len) d ≡ decode_loop str len (decode_digit v d)
loop_step v str len d h =
    goes_on (digit v) str len d (flag-false (digit v == 0) (digit-not_0 v h))
      (flag-false (digit v == 61) (digit-not_pad v h))
    ∙ ap (decode_loop str len) (decode_char-digit v d h)

low_nibble : (v : ℕ) → v < 64 → bit_and v 0x0f ≡ v % 16
unfolding all_same
low_nibble = same_below _ _ 64 refl

low_pair : (v : ℕ) → v < 64 → bit_and v 0x03 ≡ v % 4
unfolding all_same
low_pair = same_below _ _ 64 refl

-- The four places of a digit, in a group that begins with `i`.
module _ (i : ℕ) (start : i % 4 ≡ 0) (done : List ℕ) where
  digit_0 :
      (v c : ℕ)
      → v < 64
      → decode_digit v (record { i = i; done = done; cur = c })
        ≡ record { i = i + 1; done = done; cur = 4 * v }
  unfolding decode_digit
  digit_0 v c h = ground (arith, start, h)

  digit_1 :
      (u v : ℕ)
      → u < 64
      → v < 64
      → decode_digit v (record { i = i + 1; done = done; cur = 4 * u })
        ≡ record { i = i + 2; done = done ++ ((4 * u + v / 16) ∷ []); cur = 16 * (v % 16) }
  unfolding decode_digit
  digit_1 u v h k =
      ground (arith, start, h, k, low_nibble v k, or_below_4 u (v / 16) h (omega arith))

  digit_2 :
      (u v : ℕ)
      → u < 16
      → v < 64
      → decode_digit v (record { i = i + 2; done = done; cur = 16 * u })
        ≡ record { i = i + 3; done = done ++ ((16 * u + v / 4) ∷ []); cur = 64 * (v % 4) }
  unfolding decode_digit
  digit_2 u v h k = ground (arith, start, h, k, low_pair v k, or_below_16 u (v / 4) h (omega arith))

  digit_3 :
      (u v : ℕ)
      → u < 4
      → v < 64
      → decode_digit v (record { i = i + 3; done = done; cur = 64 * u })
        ≡ record { i = i + 4; done = done ++ ((64 * u + v) ∷ []); cur = 64 * u }
  unfolding decode_digit
  digit_3 u v h k = ground (arith, start, h, k, or_below_64 u v h k)

  -- Two, three and four digits.
  pub after_2 :
      (v₀ v₁ c len : ℕ) (str : List ℕ)
      → v₀ < 64
      → v₁ < 64
      → decode_loop
          (digit v₀ ∷ digit v₁ ∷ str)
          (suc (suc len))
          (record { i = i; done = done; cur = c })
        ≡ decode_loop str len
            (record { i = i + 2; done = done ++ ((4 * v₀ + v₁ / 16) ∷ []); cur = 16 * (v₁ % 16) })
  after_2 v₀ v₁ c len str h k =
      loop_step v₀ (digit v₁ ∷ str) (suc len) _ h
      ∙ ap (decode_loop (digit v₁ ∷ str) (suc len)) (digit_0 v₀ c h)
      ∙ loop_step v₁ str len _ k
      ∙ ap (decode_loop str len) (digit_1 v₀ v₁ h k)

module _ (i : ℕ) (start : i % 4 ≡ 0) (done : List ℕ) where
  pub after_3 :
      (v₀ v₁ v₂ c len : ℕ) (str : List ℕ)
      → v₀ < 64
      → v₁ < 64
      → v₂ < 64
      → decode_loop
          (digit v₀ ∷ digit v₁ ∷ digit v₂ ∷ str)
          (suc (suc (suc len)))
          (record { i = i; done = done; cur = c })
        ≡ decode_loop str len (record {
          i = i + 3;
          done = done ++ ((4 * v₀ + v₁ / 16) ∷ (16 * (v₁ % 16) + v₂ / 4) ∷ []);
          cur = 64 * (v₂ % 4);
        })
  after_3 v₀ v₁ v₂ c len str h k l =
      after_2 i start done v₀ v₁ c (suc len) (digit v₂ ∷ str) h k
      ∙ loop_step v₂ str len _ l
      ∙ ap (decode_loop str len) (digit_2 i start _ (v₁ % 16) v₂ (omega arith) l)
      ∙ ap (λ bytes. decode_loop str len (record { i = i + 3; done = bytes; cur = 64 * (v₂ % 4) }))
          (append_assoc done _ _)

module _ (i : ℕ) (start : i % 4 ≡ 0) (done : List ℕ) where
  pub after_4 :
      (v₀ v₁ v₂ v₃ c len : ℕ) (str : List ℕ)
      → v₀ < 64
      → v₁ < 64
      → v₂ < 64
      → v₃ < 64
      → decode_loop
          (digit v₀ ∷ digit v₁ ∷ digit v₂ ∷ digit v₃ ∷ str)
          (suc (suc (suc (suc len))))
          (record { i = i; done = done; cur = c })
        ≡ decode_loop str len (record {
          i = i + 4;
          done =
              done ++ ((4 * v₀ + v₁ / 16) ∷ (16 * (v₁ % 16) + v₂ / 4) ∷ (64 * (v₂ % 4) + v₃) ∷ []);
          cur = 64 * (v₂ % 4);
        })
  after_4 v₀ v₁ v₂ v₃ c len str h k l m =
      after_3 i start done v₀ v₁ v₂ c (suc len) (digit v₃ ∷ str) h k l
      ∙ loop_step v₃ str len _ m
      ∙ ap (decode_loop str len) (digit_3 i start _ (v₂ % 4) v₃ (omega arith) m)
      ∙ ap (λ bytes. decode_loop str len (record { i = i + 4; done = bytes; cur = 64 * (v₂ % 4) }))
          (append_assoc done _ _)
