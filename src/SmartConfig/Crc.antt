-- ===== src/SmartConfig/Crc.antt =====
-- `crc8` of misc/smart_config.c by its table, and the same code by a register of eight bits into which
-- the message is shifted bit by bit, lowest bit first.
use Prim.Native.Nat.{bit_and, bit_xor}
use hsbsw.Prelude.{
  ℕ, zero, suc, ◌+◌, ◌*◌, ◌/◌, ◌%◌, ◌^◌, ◌<◌, ◌≡◌, ◌∙◌, refl, sym, ap, arith, List, [], ◌∷◌, inl,
  inr, Bool-cases, ◌==◌, if◌then◌else◌, get_or, take, drop, All,
}
use native.Mathlib.Nat.{zero-add}
use hsbsw.SmartConfig.{
  crc_polynom, crc_shift, crc_shifts, fill_table, crc_table, crc_round, crc_loop, crc8,
}
use hsbsw.SmartConfig.Xor.{bit_xor_step, bit_xor_comm, bit_xor_assoc, bit_xor-mod, bit_xor-zero}
use hsbsw.SmartConfig.And.{bit_and_mask}

-- The register takes one bit in.
abbrev pub take_bit : ℕ → ℕ → ℕ
take_bit r bit = if (r + bit) % 2 == 0 then r / 2 else bit_xor (r / 2) crc_polynom

-- The lowest `n` bits of a number.
unfoldable pub take_bits : ℕ → ℕ → ℕ → ℕ
take_bits zero b r = r
take_bits (suc n) b r = take_bits n (b / 2) (take_bit r (b % 2))

-- The bytes of a message, one after the other.
unfoldable pub serial : List ℕ → ℕ → ℕ
unfolding take_bits
serial [] r = r
serial (b ∷ bs) r = serial bs (take_bits 8 b r)

-- What is left of a number when its lowest `n` bits are gone.
halves : ℕ → ℕ → ℕ
halves zero b = b
halves (suc n) b = halves n (b / 2)

crc_shift-bit_xor : (r b : ℕ) → crc_shift (bit_xor r b) ≡ bit_xor (take_bit r (b % 2)) (b / 2)
unfolding crc_shift
crc_shift-bit_xor r b =
    let low : bit_and (bit_xor r b) 1 ≡ (r + b % 2) % 2 =
      omega (arith, bit_and_mask 1 (bit_xor r b), bit_xor_step r b) in
    let half : bit_xor r b / 2 ≡ bit_xor (r / 2) (b / 2) = omega (arith, bit_xor_step r b) in
    let swap =
      bit_xor_assoc (r / 2) (b / 2) crc_polynom
      ∙ ap (bit_xor (r / 2)) (bit_xor_comm (b / 2) crc_polynom)
      ∙ sym (bit_xor_assoc (r / 2) crc_polynom (b / 2)) in
    elim (Bool-cases ((r + b % 2) % 2 == 0)) [
      | inl e ↦ rw (low, half, e) refl
      | inr e ↦ rw (low, half, e) swap
    ]

crc_shifts-bit_xor :
    (n r b : ℕ) → crc_shifts n (bit_xor r b) ≡ bit_xor (take_bits n b r) (halves n b)
unfolding crc_shifts take_bits halves
crc_shifts-bit_xor zero r b = refl
crc_shifts-bit_xor (suc n) r b =
    rw (crc_shift-bit_xor r b) (crc_shifts-bit_xor n (take_bit r (b % 2)) (b / 2))

halves_byte : (b : ℕ) → b < 256 → halves 8 b ≡ 0
unfolding halves
halves_byte b h = omega arith

-- A byte at once is its bits one by one.
crc_shifts-take_bits : (r b : ℕ) → b < 256 → crc_shifts 8 (bit_xor r b) ≡ take_bits 8 b r
crc_shifts-take_bits r b h =
    crc_shifts-bit_xor 8 r b
    ∙ ap (bit_xor (take_bits 8 b r)) (halves_byte b h)
    ∙ bit_xor-zero (take_bits 8 b r)

bit_xor-lt : (a b : ℕ) → a < 256 → b < 256 → bit_xor a b < 256
bit_xor-lt a b h k =
    let p : a % 2 ^ 8 ≡ a = omega arith in
    let q : b % 2 ^ 8 ≡ b = omega arith in
    let e : bit_xor (a % 2 ^ 8) (b % 2 ^ 8) ≡ bit_xor a b = λ i. bit_xor (p i) (q i) in
    omega (arith, bit_xor-mod 8 a b, e)

take_bit-lt : (r bit : ℕ) → r < 256 → take_bit r bit < 256
take_bit-lt r bit h = ground (arith, bit_xor-lt (r / 2) crc_polynom (omega arith) (omega arith))

pub take_bits-lt : (n b r : ℕ) → r < 256 → take_bits n b r < 256
unfolding take_bits
take_bits-lt zero b r h = h
take_bits-lt (suc n) b r h = take_bits-lt n (b / 2) (take_bit r (b % 2)) (take_bit-lt r (b % 2) h)

pub serial-lt : (bs : List ℕ) (r : ℕ) → r < 256 → serial bs r < 256
unfolding serial
serial-lt [] r h = h
serial-lt (b ∷ bs) r h = serial-lt bs (take_bits 8 b r) (take_bits-lt 8 b r h)

get_or-fill_table : (n d i : ℕ) → i < n → get_or (fill_table n d) i 0 ≡ crc_shifts 8 (d + i)
unfolding fill_table
get_or-fill_table zero d i h = elim h [ ]
get_or-fill_table (suc n) d zero h = ap (crc_shifts 8) (omega arith)
get_or-fill_table (suc n) d (suc i) h =
    get_or-fill_table n (suc d) i (omega arith) ∙ ap (crc_shifts 8) (omega arith)

get_or-crc_table : (i : ℕ) → i < 256 → get_or crc_table i 0 ≡ crc_shifts 8 i
unfolding crc_table
get_or-crc_table i h = get_or-fill_table 256 0 i h ∙ ap (crc_shifts 8) (zero-add i)

-- The lower byte of the short is the register.
crc_round-low : (value b : ℕ) → b < 256 → crc_round value b % 256 ≡ take_bits 8 b (value % 256)
unfolding crc_round
crc_round-low value b h =
    let v = value % 256 in
    let byte : b % 2 ^ 8 ≡ b = omega arith in
    let t = take_bits 8 b v in
    let small = take_bits-lt 8 b v (omega arith) in
    let index : bit_and (bit_xor b value) 0xff ≡ bit_xor v b =
      bit_and_mask 8 (bit_xor b value)
      ∙ bit_xor-mod 8 b value
      ∙ (λ i. bit_xor (byte i) v)
      ∙ bit_xor_comm b v in
    let entry : get_or crc_table (bit_and (bit_xor b value) 0xff) 0 ≡ t =
      ap (λ i. get_or crc_table i 0) index
      ∙ get_or-crc_table (bit_xor v b) (bit_xor-lt v b (omega arith) h)
      ∙ crc_shifts-take_bits v b h in
    let shifted : value * 256 % 2 ^ 8 ≡ 0 = omega arith in
    let own : t % 2 ^ 8 ≡ t = omega arith in
    let low : bit_xor t (value * 256) % 2 ^ 8 ≡ t =
      bit_xor-mod 8 t (value * 256) ∙ (λ i. bit_xor (own i) (shifted i)) ∙ bit_xor-zero t in
    rw entry (omega (arith, low))

crc_loop-low :
    (bs : List ℕ) (value : ℕ)
    → All (λ b. b < 256) bs
    → crc_loop bs value % 256 ≡ serial bs (value % 256)
unfolding crc_loop serial
crc_loop-low [] value h = refl
crc_loop-low (b ∷ bs) value h =
    crc_loop-low bs (crc_round value b) h.1 ∙ ap (serial bs) (crc_round-low value b h.0)

-- For bytes, the code by the table is the code of the register of eight bits that takes the message
-- in bit by bit.
pub crc8-serial :
    (buf : List ℕ) (offset len : ℕ)
    → All (λ b. b < 256) (take len (drop offset buf))
    → crc8 buf offset len ≡ serial (take len (drop offset buf)) 0
unfolding crc8
crc8-serial buf offset len h =
    bit_and_mask 8 (crc_loop (take len (drop offset buf)) 0) ∙ crc_loop-low _ 0 h
