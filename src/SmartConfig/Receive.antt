-- ===== src/SmartConfig/Receive.antt =====
-- What a receiver of the lengths that misc/smart_config.c sends can make of them.
use Prim.Native.Nat.{bit_and, bit_or}
use hsbsw.Prelude.{
  ℕ, ◌+◌, ◌-◌, ◌*◌, ◌/◌, ◌%◌, ◌<◌, ◌≡◌, ◌∙◌, refl, arith, [], ◌∷◌, Option, none, some, true, ◌==◌,
  ◌&&◌, if◌then◌else◌,
}
use hsbsw.Utils.Base64.Bits.{or_below_16, all_same, same_below}
use hsbsw.SmartConfig.{crc8, Triple, data_triple}
use hsbsw.SmartConfig.And.{bit_and_mask, bit_and_high}
use hsbsw.SmartConfig.Crc.{serial, serial-lt, crc8-serial}

-- The receiver's reading of three lengths: the byte and its index, if the check of the two agrees.
abbrev pub decode : Triple → Option (ℕ × ℕ)
decode t =
    let byte = (t.high - 40) % 16 * 16 + (t.low - 40) % 16 in
    let index = (t.middle - 40) % 256 in
    let crc = (t.high - 40) / 16 * 16 + (t.low - 40) / 16 in
    if (t.middle - 40) / 256 == 1 && crc == serial (byte ∷ index ∷ []) 0
    then some (byte, index)
    else none

or_256 : (i : ℕ) → i < 256 → bit_or (1 * 256) i ≡ 256 + i
unfolding all_same
or_256 = same_below _ _ 256 refl

-- Two halves of bytes in one.
high_nibbles :
    (c w : ℕ)
    → c < 256
    → bit_or (bit_and c 0xf0 / 16 * 16) (bit_and w 0xf0 / 16) ≡ 16 * (c / 16) + w / 16 % 16
high_nibbles c w h =
    let x : bit_and c 0xf0 / 16 * 16 ≡ 16 * (c / 16) = omega (arith, bit_and_high c) in
    (λ i. bit_or (x i) (bit_and_high w i))
    ∙ or_below_16 (c / 16) (w / 16 % 16) (omega arith) (omega arith)

low_nibbles : (c w : ℕ) → bit_or (bit_and c 0xf * 16) (bit_and w 0xf) ≡ 16 * (c % 16) + w % 16
low_nibbles c w =
    let x : bit_and c 0xf * 16 ≡ 16 * (c % 16) = omega (arith, bit_and_mask 4 c) in
    (λ i. bit_or (x i) (bit_and_mask 4 w i))
    ∙ or_below_16 (c % 16) (w % 16) (omega arith) (omega arith)

data_triple-fields :
    (word index : ℕ)
    → index < 256
    → let crc = serial (word % 256 ∷ index ∷ []) 0 in
      (crc < 256)
      × (data_triple word index ≡ record {
        high = 16 * (crc / 16) + word / 16 % 16 + 40;
        middle = 256 + index + 40;
        low = 16 * (crc % 16) + word % 16 + 40;
      })
unfolding data_triple
data_triple-fields word index h =
    let bytes = word % 256 ∷ index ∷ [] in
    let crc = serial bytes 0 in
    let small = serial-lt bytes 0 (omega arith) in
    let e : crc8 bytes 0 2 ≡ crc = crc8-serial bytes 0 2 (omega arith) in
    let high = high_nibbles crc word small in
    let low = low_nibbles crc word in
    (
      small,
      rw e (λ i. record { high = high i + 40; middle = or_256 index h i + 40; low = low i + 40 }),
    )

-- A byte and its index are received, and the check agrees.
pub decode-data_triple :
    (word index : ℕ) → index < 256 → decode (data_triple word index) ≡ some (word % 256, index)
decode-data_triple word index h =
    let (small, e) = data_triple-fields word index h in
    let crc = serial (word % 256 ∷ index ∷ []) 0 in
    let t : Triple = record {
      high = 16 * (crc / 16) + word / 16 % 16 + 40;
      middle = 256 + index + 40;
      low = 16 * (crc % 16) + word % 16 + 40;
    } in
    let byte : (t.high - 40) % 16 * 16 + (t.low - 40) % 16 ≡ word % 256 = omega arith in
    let own : (t.middle - 40) % 256 ≡ index = omega arith in
    let mark : ((t.middle - 40) / 256 == 1) ≡ true = ground arith in
    let check : (((t.high - 40) / 16 * 16 + (t.low - 40) / 16) == crc) ≡ true = ground arith in
    rw e (rw (byte, own, mark, check) refl)
