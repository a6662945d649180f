-- ===== src/Utils/Base64/Laws.antt =====
-- The encoder of lib/utils.c against base64 as RFC 4648 describes it.
use hsbsw.Prelude.{
  ℕ, ◌+◌, ◌*◌, ◌/◌, ◌%◌, ◌<◌, ◌≡◌, refl, ap, ◌∙◌, true, List, [], ◌∷◌, ◌++◌, some, All, length,
  length-append, arith,
}
use Prim.Native.Nat.{bit_and, bit_or}
use hsbsw.Utils.Base64.{b64_char, encode_three, encode_one, encode_two, encode_from, encrypt_b64}
use hsbsw.Utils.Base64.Reference.{digit, group, digits, base64}
use hsbsw.Utils.Base64.Bits.{
  high_six, low_two, high_four, low_four, low_four', high_two, low_six, or_below_16, or_below_4,
  b64_char-digit,
}

abbrev pub IsByte : ℕ → Type 0
IsByte v = v < 256

second_bits :
    (a b : ℕ)
    → IsByte a
    → IsByte b
    → bit_or (bit_and (a * 16) 0x30) (bit_and (b / 16) 0x0f) ≡ 16 * (a % 4) + b / 16
second_bits a b h k =
    rw (low_two a h, high_four b k) (or_below_16 (a % 4) (b / 16) (omega arith) (omega arith))

third_bits :
    (b c : ℕ)
    → IsByte b
    → IsByte c
    → bit_or (bit_and (b * 4) 0x3c) (bit_and (c / 64) 0x03) ≡ 4 * (b % 16) + c / 64
third_bits b c h k =
    rw (low_four b h, high_two c k) (or_below_4 (b % 16) (c / 64) (omega arith) (omega arith))

char_of : (v x : ℕ) → v ≡ x → x < 64 → b64_char v ≡ digit x
char_of v x e h = ap b64_char e ∙ b64_char-digit x h

encode_three-digits :
    (a b c : ℕ) → IsByte a → IsByte b → IsByte c → encode_three a b c ≡ digits (group a b c)
unfolding encode_three
encode_three-digits a b c h k l =
    rw
      (
        char_of _ (group a b c / 262144) (high_six a h ∙ omega arith) (omega arith),
        char_of _ (group a b c / 4096 % 64) (second_bits a b h k ∙ omega arith) (omega arith),
        char_of _ (group a b c / 64 % 64) (third_bits b c k l ∙ omega arith) (omega arith),
        char_of _ (group a b c % 64) (low_six c l ∙ omega arith) (omega arith),
      )
      refl

encode_two-digits :
    (a b : ℕ) → IsByte a → IsByte b → encode_two a b ≡ base64 (a ∷ b ∷ []) ++ (0 ∷ [])
unfolding encode_two
encode_two-digits a b h k =
    rw
      (
        char_of _ (group a b 0 / 262144) (high_six a h ∙ omega arith) (omega arith),
        char_of _ (group a b 0 / 4096 % 64) (second_bits a b h k ∙ omega arith) (omega arith),
        char_of _ (group a b 0 / 64 % 64) (low_four' b k ∙ omega arith) (omega arith),
      )
      refl

encode_one-digits : (a : ℕ) → IsByte a → encode_one a ≡ base64 (a ∷ []) ++ (0 ∷ [])
unfolding encode_one
encode_one-digits a h =
    rw
      (
        char_of _ (group a 0 0 / 262144) (high_six a h ∙ omega arith) (omega arith),
        char_of _ (group a 0 0 / 4096 % 64) (low_two a h ∙ omega arith) (omega arith),
      )
      refl

pub encode_from-base64 : (src : List ℕ) → All IsByte src → encode_from src ≡ base64 src ++ (0 ∷ [])
unfolding encode_from
encode_from-base64 [] h = refl
encode_from-base64 (a ∷ []) h = encode_one-digits a h.0
encode_from-base64 (a ∷ b ∷ []) h = encode_two-digits a b h.0 h.1.0
encode_from-base64 (a ∷ b ∷ c ∷ src) h =
    rw (encode_three-digits a b c h.0 h.1.0 h.1.1.0, encode_from-base64 src h.1.1.1) refl

pub length-base64 : (src : List ℕ) → length (base64 src) ≡ 4 * ((length src + 2) / 3)
length-base64 [] = refl
length-base64 (a ∷ []) = refl
length-base64 (a ∷ b ∷ []) = refl
length-base64 (a ∷ b ∷ c ∷ src) = omega (arith, length-base64 src)

-- The encoder writes what RFC 4648 describes, with a terminator, and returns the number of characters
-- before it, four for each three bytes begun, for any bytes and pointers that are not NULL.
pub encrypt_b64-base64 :
    (src : List ℕ)
    → All IsByte src
    → encrypt_b64 true (some src) ≡ (4 * ((length src + 2) / 3), base64 src ++ (0 ∷ []))
unfolding encrypt_b64
encrypt_b64-base64 src h = rw (encode_from-base64 src h) (
    ap (λ n. (n, base64 src ++ (0 ∷ [])))
      (omega (arith, length-base64 src, length-append (base64 src) (0 ∷ []))))
