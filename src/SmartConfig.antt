-- ===== src/SmartConfig.antt =====
-- misc/smart_config.c: the name and the password of a network as the lengths of datagrams.
mod Digits
mod Xor
mod And
pub mod Crc
pub mod Receive
pub mod Table
pub mod Carries
pub mod Packet
mod Tests
pub mod Send
pub mod Sent
use Prim.Native.Nat.{bit_and, bit_or, bit_xor}
use hsbsw.Prelude.{
  zero, suc, ℕ, ◌+◌, ◌*◌, ◌/◌, ◌%◌, ◌^◌, Bool, List, [], ◌∷◌, ◌++◌, ◌==◌, leb, ◌&&◌, if◌then◌else◌,
  length, get_or, set, take, drop, map, replicate,
}

-- CRC_POLYNOM
abbrev pub crc_polynom : ℕ
crc_polynom = 0x8c

-- One round of the inner loop of `init_crcTable`.
unfoldable pub crc_shift : ℕ → ℕ
crc_shift remainder =
    if bit_and remainder 0x01 == 0 then remainder / 2 else bit_xor (remainder / 2) crc_polynom

-- The inner loop, with `n` rounds left.
unfoldable pub crc_shifts : ℕ → ℕ → ℕ
crc_shifts zero remainder = remainder
crc_shifts (suc n) remainder = crc_shifts n (crc_shift remainder)

-- The outer loop of `init_crcTable`, from `dividend` on.
unfoldable pub fill_table : ℕ → ℕ → List ℕ
fill_table zero dividend = []
fill_table (suc n) dividend = crc_shifts 8 dividend ∷ fill_table n (suc dividend)

-- `crcTable`, as `init_crcTable` leaves it; a short holds every entry.
unfoldable pub crc_table : List ℕ
crc_table = fill_table 256 0

-- One round of `crc8`; `value` is a short, by its 16-bit pattern.
unfoldable pub crc_round : ℕ → ℕ → ℕ
crc_round value byte =
    let index = bit_and (bit_xor byte value) 0xff in
    bit_xor (get_or crc_table index 0) (value * 256) % 2 ^ 16

-- The loop of `crc8` over the bytes that are left.
unfoldable pub crc_loop : List ℕ → ℕ → ℕ
crc_loop [] value = value
crc_loop (b ∷ bs) value = crc_loop bs (crc_round value b)

-- `crc8` of an array that has the bytes which are asked for.
unfoldable pub crc8 : List ℕ → ℕ → ℕ → ℕ
crc8 buf offset len = bit_and (crc_loop (take len (drop offset buf)) 0) 0xff

-- The three lengths that carry a byte and its index.
pub record Triple : Type 0 where
  pub high : ℕ
  pub middle : ℕ
  pub low : ℕ

-- What `make_data_code` writes for a uint16_t and a uint8_t.
unfoldable pub data_triple : ℕ → ℕ → Triple
data_triple word index =
    let datal = bit_and word 0xf in
    let datah = bit_and word 0xf0 / 16 in
    let crc = crc8 (word % 256 ∷ index ∷ []) 0 2 in
    let crcl = bit_and crc 0xf in
    let crch = bit_and crc 0xf0 / 16 in
    record {
      high = bit_or (crch * 16) datah + 40;
      middle = bit_or (1 * 256) index + 40;
      low = bit_or (crcl * 16) datal + 40;
    }

-- `make_data_code` on the array `data_code`, with an int that becomes a uint8_t.
unfoldable pub make_data_code : ℕ → ℕ → List ℕ → List ℕ
make_data_code word n data_code =
    let index = n % 256 in
    let t = data_triple word index in
    set (set (set data_code (index * 3) t.high) (index * 3 + 1) t.middle) (index * 3 + 2) t.low

-- The codes, and `total_xor`.
pub record Coded : Type 0 where
  pub data_code : List ℕ
  pub total_xor : ℕ

-- A value that goes into `total_xor`, too.
unfoldable pub add_code : ℕ → ℕ → Coded → Coded
add_code tmp n c = record {
  data_code = make_data_code tmp n c.data_code;
  total_xor = bit_xor c.total_xor tmp;
}

-- The loops of `make_code`, from index `n` on.
unfoldable pub add_codes : List ℕ → ℕ → Coded → Coded
add_codes [] n c = c
add_codes (b ∷ bs) n c = add_codes bs (suc n) (add_code b n c)

-- `(uint16_t)c` for a char, which is signed on some targets.
abbrev pub widen : Bool → ℕ → ℕ
widen signed c = if signed && leb 128 c then c + 0xff00 else c

-- `data_code` and `dc_len`, as `make_code` leaves them.
pub record Codes : Type 0 where
  pub data_code : List ℕ
  pub dc_len : ℕ

-- The strings are their bytes without the 0 at the end; `bssid` has six bytes and `ip` four.
unfoldable pub make_code : Bool → List ℕ → List ℕ → List ℕ → List ℕ → List ℕ → Codes
make_code signed ssid pwd ip bssid data_code =
    let ap_pwd_len = length pwd % 2 ^ 16 in
    let ap_ssid_len = length ssid % 2 ^ 16 in
    let total_len = (5 + 4 + ap_pwd_len + ap_ssid_len) % 2 ^ 16 in
    let lens = total_len ∷ ap_pwd_len ∷ crc8 ssid 0 ap_ssid_len ∷ crc8 bssid 0 6 ∷ [] in
    let c = add_codes lens 0 (record { data_code = data_code; total_xor = 0 }) in
    let c = add_codes (take 4 ip) 5 c in
    let c = add_codes (map (widen signed) (take ap_pwd_len pwd)) 9 c in
    let c = add_codes (map (widen signed) (take ap_ssid_len ssid)) (9 + ap_pwd_len) c in
    record { data_code = make_data_code c.total_xor 4 c.data_code; dc_len = (9 + ap_pwd_len) * 3 }
