-- ===== src/Network/Field.antt =====
-- `GET_CMD_FIELD` and `SET_CMD_FIELD` of include/network_utils.h on byte arrays, on a little-endian
-- target without alignment traps. `none` is an access out of the array.
use hsbsw.Prelude.{
  zero, suc, List, [], ◌∷◌, ℕ, ◌+◌, ◌-◌, ◌*◌, ◌/◌, ◌%◌, Option, none, some, ◌==◌, leb,
  if◌then◌else◌,
}

-- A pointer into an array: the bytes from it on, of which `size` belong to the array.
pub record Buf : Type 0 where
  pub size : ℕ
  pub byte : ℕ → ℕ

-- A chain of accesses stops at the first fault.
infixl 5 ◌>>=◌
abbrev pub ◌>>=◌ {ℓ κ} : {A : Type ℓ} {B : Type κ} → Option A → (A → Option B) → Option B
none >>= f = none
some a >>= f = f a

unfoldable pub get_u8 : Buf → ℕ → Option ℕ
get_u8 buf off = if leb (off + 1) buf.size then some (buf.byte off) else none

unfoldable pub get_u16 : Buf → ℕ → Option ℕ
get_u16 buf off =
    if leb (off + 2) buf.size then some (buf.byte off + 256 * buf.byte (off + 1)) else none

unfoldable pub get_u32 : Buf → ℕ → Option ℕ
get_u32 buf off =
    if leb (off + 4) buf.size
    then some (
        buf.byte off
        + 256 * buf.byte (off + 1)
        + 65536 * buf.byte (off + 2)
        + 16777216 * buf.byte (off + 3))
    else none

-- One byte is written, the value modulo 256.
abbrev pub poke : Buf → ℕ → ℕ → Buf
poke buf off v = record buf { byte = λ i. if i == off then v % 256 else buf.byte i }

-- `n` bytes from `off` on
unfoldable pub get_bytes : ℕ → Buf → ℕ → Option (List ℕ)
get_bytes zero buf off = some []
get_bytes (suc n) buf off = do v ← get_u8 buf off; vs ← get_bytes n buf (off + 1); some (v ∷ vs)

unfoldable pub set_u8 : Buf → ℕ → ℕ → Option Buf
set_u8 buf off v = if leb (off + 1) buf.size then some (poke buf off v) else none

unfoldable pub set_u16 : Buf → ℕ → ℕ → Option Buf
set_u16 buf off v =
    if leb (off + 2) buf.size then some (poke (poke buf off v) (off + 1) (v / 256)) else none

unfoldable pub set_u32 : Buf → ℕ → ℕ → Option Buf
set_u32 buf off v =
    if leb (off + 4) buf.size
    then some (
        poke (poke (poke (poke buf off v) (off + 1) (v / 256)) (off + 2) (v / 65536)) (off + 3)
          (v / 16777216))
    else none

-- `buf + n`
abbrev pub advance : ℕ → Buf → Buf
advance n buf = record { size = buf.size - n; byte = λ i. buf.byte (n + i) }

-- An array of `size` bytes after `memset(…, 0, …)`.
abbrev pub zero_buf : ℕ → Buf
zero_buf size = record { size = size; byte = λ i. 0 }

-- MAKE_CMD_HDR
unfoldable pub make_cmd_hdr : ℕ → ℕ → Buf → Option Buf
unfolding set_u16
make_cmd_hdr cmd len buf = do b ← set_u16 buf 0 cmd; set_u16 b 2 len
