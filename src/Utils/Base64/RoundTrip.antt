-- ===== src/Utils/Base64/RoundTrip.antt =====
-- The decoder of lib/utils.c on what the encoder writes.
use mathlib.Core.List.{append-nil, append_assoc}
use hsbsw.Prelude.{
  ℕ, ◌+◌, ◌*◌, ◌/◌, ◌%◌, ◌≡◌, refl, sym, ap, ◌∙◌, true, List, [], ◌∷◌, ◌++◌, Option, some, All,
  length, arith,
}
use hsbsw.Network.Field.{◌>>=◌}
use hsbsw.Utils.Base64.{encrypt_b64, Decoder, decode_loop, decode_end, decode_b64}
use hsbsw.Utils.Base64.Reference.{pad, group, base64}
use hsbsw.Utils.Base64.Laws.{IsByte, encrypt_b64-base64, length-base64}
use hsbsw.Utils.Base64.Digits.{after_2, after_3, after_4}

abbrev finished : Option (ℕ × Decoder) → Option (ℕ × List ℕ)
finished o = do (ch, d) ← o; some (decode_end ch d)

-- The three bytes of a group, from its digits.
byte_0 : (a n : ℕ) → n / 65536 ≡ a → 4 * (n / 262144) + n / 4096 % 64 / 16 ≡ a
byte_0 a n e = omega (arith, e)

byte_1 : (n : ℕ) → 16 * (n / 4096 % 64 % 16) + n / 64 % 64 / 4 ≡ n / 256 % 256
byte_1 n = omega arith

byte_2 : (n : ℕ) → 64 * (n / 64 % 64 % 4) + n % 64 ≡ n % 256
byte_2 n = omega arith

group-bytes :
    (a b c : ℕ)
    → IsByte a
    → IsByte b
    → IsByte c
    → (4 * (group a b c / 262144) + group a b c / 4096 % 64 / 16 ≡ a)
      × (16 * (group a b c / 4096 % 64 % 16) + group a b c / 64 % 64 / 4 ≡ b)
      × (64 * (group a b c / 64 % 64 % 4) + group a b c % 64 ≡ c)
group-bytes a b c h k l = (
  byte_0 a (group a b c) (omega arith),
  byte_1 (group a b c) ∙ omega arith,
  byte_2 (group a b c) ∙ omega arith,
)

-- The ends: no byte is left over, two are, or one.
module _ (i : ℕ) (start : i % 4 ≡ 0) (done : List ℕ) (c : ℕ) where
  end_0 :
      finished (decode_loop (0 ∷ []) 0 (record { i = i; done = done; cur = c }))
      ≡ some (length done, done ++ (0 ∷ []))
  unfolding decode_loop decode_end
  end_0 = refl

  end_3 :
      finished (decode_loop (pad ∷ 0 ∷ []) 1 (record { i = i + 3; done = done; cur = c }))
      ≡ some (length done, done ++ (0 ∷ []))
  unfolding decode_loop decode_end
  end_3 = ground (arith, start)

  end_2 :
      finished (decode_loop (pad ∷ pad ∷ 0 ∷ []) 2 (record { i = i + 2; done = done; cur = c }))
      ≡ some (length done, done ++ (0 ∷ 0 ∷ []))
  unfolding decode_loop decode_end
  end_2 = ground (arith, start)

-- What is left when the bytes `bytes` have been decoded, with `rest` behind the terminator.
abbrev outcome : List ℕ → List ℕ → Option (ℕ × List ℕ)
outcome bytes rest = some (length bytes, bytes ++ (0 ∷ rest))

abbrev state : ℕ → List ℕ → ℕ → Decoder
state i done c = record { i = i; done = done; cur = c }

decode_base64 :
    (src done : List ℕ) (i c : ℕ)
    → i % 4 ≡ 0
    → All IsByte src
    → (rest : List ℕ) × (finished
          (decode_loop (base64 src ++ (0 ∷ [])) (length (base64 src)) (state i done c))
        ≡ outcome (done ++ src) rest)
decode_base64 [] done i c z h =
    ([], end_0 i z done c ∙ ap (λ bytes. outcome bytes []) (sym (append-nil done)))
decode_base64 (a ∷ []) done i c z h = (
  0 ∷ [],
  ap finished (after_2 i z done _ _ c 2 (pad ∷ pad ∷ 0 ∷ []) (omega (arith, h.0)) (omega arith))
      ∙ end_2 i z _ _
      ∙ ap (λ x. outcome (done ++ (x ∷ [])) (0 ∷ []))
          (group-bytes a 0 0 h.0 (omega arith) (omega arith)).0,
)
decode_base64 (a ∷ b ∷ []) done i c z h =
    let (p, q, r) = group-bytes a b 0 h.0 h.1.0 (omega arith) in
    (
      [],
      ap finished (
            after_3 i z done _ _ _ c 1 (pad ∷ 0 ∷ []) (omega (arith, h.0)) (omega arith)
              (omega arith))
          ∙ end_3 i z _ _
          ∙ ap
              (λ x.
                outcome
                  (done
                    ++ (x ∷ (16 * (group a b 0 / 4096 % 64 % 16) + group a b 0 / 64 % 64 / 4) ∷ []))
                  [])
              p
          ∙ ap (λ y. outcome (done ++ (a ∷ y ∷ [])) []) q,
    )
decode_base64 (a ∷ b ∷ e ∷ src) done i c z h =
    let (p, q, r) = group-bytes a b e h.0 h.1.0 h.1.1.0 in
    let (rest, ih) =
      decode_base64 src (done ++ (a ∷ b ∷ e ∷ [])) (i + 4) (64 * (group a b e / 64 % 64 % 4))
        (omega arith) h.1.1.1 in
    (
      rest,
      ap finished (
            after_4 i z done (group a b e / 262144) (group a b e / 4096 % 64)
              (group a b e / 64 % 64) (group a b e % 64) c (length (base64 src))
              (base64 src ++ (0 ∷ [])) (omega (arith, h.0)) (omega arith) (omega arith)
              (omega arith))
          ∙ rw (p, q, r) ih
          ∙ ap (λ bytes. outcome bytes rest) (append_assoc done (a ∷ b ∷ e ∷ []) src),
    )

-- Decoding what the encoder has written, with the length that it returns, gives the bytes back, with
-- their number and a terminator behind them, for any bytes and pointers that are not NULL.
pub decode_b64-encrypt_b64 :
    (src : List ℕ)
    → All IsByte src
    → (rest : List ℕ) × (decode_b64 true
          (encrypt_b64 true (some src)).1
          (encrypt_b64 true (some src)).0
        ≡ some (length src, src ++ (0 ∷ rest)))
unfolding decode_b64
decode_b64-encrypt_b64 src h =
    let (rest, e) = decode_base64 src [] 0 0 refl h in
    (
      rest,
      ap (λ (r : ℕ × List ℕ). decode_b64 true r.1 r.0)
            (encrypt_b64-base64 src h
              ∙ ap (λ n. (n, base64 src ++ (0 ∷ []))) (sym (length-base64 src)))
          ∙ e,
    )
