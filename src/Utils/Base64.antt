-- ===== src/Utils/Base64.antt =====
-- The base64 encoder and decoder of lib/utils.c, on lists of bytes.
pub mod Reference
pub mod Bits
pub mod Laws
pub mod Digits
pub mod RoundTrip
use Prim.Native.Nat.{bit_and, bit_or}
use hsbsw.Prelude.{
  ℕ, zero, suc, ◌+◌, ◌-◌, ◌*◌, ◌/◌, ◌%◌, ◌^◌, Bool, List, [], ◌∷◌, ◌++◌, map, Option, none, some,
  ◌==◌, ltb, leb, not, ◌&&◌, if◌then◌else◌, length, get_elem?,
}
use hsbsw.Codes.{minus_one}
use hsbsw.Network.Field.{◌>>=◌}

-- The body of the loops over `dest[tmp + i]`: a number of six bits to its character, in an unsigned char.
unfoldable pub b64_char : ℕ → ℕ
b64_char v =
    let added =
      if leb v 25
      then (v + 65) % 256
      else if leb v 51
      then (v + (97 - 26)) % 256
      else if leb v 61
      then (v + 48 - 52) % 256
      else v in
    let plus = if added == 62 then 43 else added in if plus == 63 then 47 else plus

-- The four bytes that three become.
unfoldable pub encode_three : ℕ → ℕ → ℕ → List ℕ
encode_three a b c = map b64_char (
    bit_and 0x3f (a / 4)
    ∷ bit_or (bit_and (a * 16) 0x30) (bit_and (b / 16) 0x0f)
    ∷ bit_or (bit_and (b * 4) 0x3c) (bit_and (c / 64) 0x03)
    ∷ bit_and 0x3f c
    ∷ [])

-- The end: one byte or two that are left over, with the terminator.
unfoldable pub encode_one : ℕ → List ℕ
encode_one a =
    map b64_char (bit_and 0x3f (a / 4) ∷ bit_and (a * 16) 0x30 ∷ []) ++ (61 ∷ 61 ∷ 0 ∷ [])

unfoldable pub encode_two : ℕ → ℕ → List ℕ
encode_two a b =
    map b64_char (
      bit_and 0x3f (a / 4)
      ∷ bit_or (bit_and (a * 16) 0x30) (bit_and (b / 16) 0x0f)
      ∷ bit_and (b * 4) 0x3f
      ∷ [])
    ++ (61 ∷ 0 ∷ [])

-- What is written to `dest`, from the bytes from `b64_tmp` on.
unfoldable pub encode_from : List ℕ → List ℕ
encode_from [] = 0 ∷ []
encode_from (a ∷ []) = encode_one a
encode_from (a ∷ b ∷ []) = encode_two a b
encode_from (a ∷ b ∷ c ∷ src) = encode_three a b c ++ encode_from src

-- What it returns, and the bytes that it writes to `dest`, for the `size` bytes of `src`; a pointer
-- that is `none` is NULL, and `dest` says whether it is not.
unfoldable pub encrypt_b64 : Bool → Option (List ℕ) → ℕ × List ℕ
encrypt_b64 dest none = (minus_one, [])
encrypt_b64 dest (some src) =
    if not dest then (minus_one, []) else (length (encode_from src) - 1, encode_from src)

-- The first entries of `base64_reverse_table`, 240 of them, with -1 as `none`.
abbrev pub row : ℕ → ℕ → List (Option ℕ)
row first zero = []
row first (suc n) = some first ∷ row (first + 1) n

abbrev pub holes : ℕ → List (Option ℕ)
holes zero = []
holes (suc n) = none ∷ holes n

unfoldable pub reverse_entries : List (Option ℕ)
reverse_entries =
    holes 43
    ++ (some 62 ∷ holes 3)
    ++ (some 63 ∷ row 52 10)
    ++ holes 7
    ++ row 0 26
    ++ holes 6
    ++ row 26 26
    ++ holes 117

-- `base64_reverse_table[ch]`: the 16 entries that the table does not give are 0.
unfoldable pub reverse_table : ℕ → Option ℕ
unfolding reverse_entries
reverse_table ch = elim (get_elem? reverse_entries ch) [ none ↦ some 0 | some e ↦ e ]

-- The decoder between two characters: `i`, `result[0..j)`, and `result[j]`, of which bits are missing.
pub record Decoder : Type 0 where
  pub i : ℕ
  pub done : List ℕ
  pub cur : ℕ

-- The `switch` of the loop on a number of six bits.
unfoldable pub decode_digit : ℕ → Decoder → Decoder
decode_digit v d =
    let n = d.i % 4 in
    if n == 0
    then record { i = d.i + 1; done = d.done; cur = v * 4 % 256 }
    else if n == 1
    then record {
      i = d.i + 1;
      done = d.done ++ (bit_or d.cur (v / 16) % 256 ∷ []);
      cur = bit_and v 0x0f * 16 % 256;
    }
    else if n == 2
    then record {
      i = d.i + 1;
      done = d.done ++ (bit_or d.cur (v / 4) % 256 ∷ []);
      cur = bit_and v 0x03 * 64 % 256;
    }
    else record { i = d.i + 1; done = d.done ++ (bit_or d.cur v % 256 ∷ []); cur = d.cur }

-- The rest of the body, for a character that does not end the loop.
unfoldable pub decode_char : ℕ → Decoder → Decoder
decode_char ch d = elim (reverse_table (if ch == 32 then 43 else ch)) [
  | none ↦ d
  | some v ↦ decode_digit v d
]

-- The loop: the last character that it reads and what it leaves; `none` is a read past the array.
unfoldable pub decode_loop : List ℕ → ℕ → Decoder → Option (ℕ × Decoder)
decode_loop [] len d = none
decode_loop (ch ∷ str) zero d = some (ch, d)
decode_loop (ch ∷ str) (suc len) d =
    let rest = decode_loop str len (decode_char ch d) in
    if ch == 0 then some (ch, d) else if ch == 61 then some (ch, d) else rest

-- After the loop: what is returned, and what `result` holds from its first byte to the last one written.
unfoldable pub decode_end : ℕ → Decoder → ℕ × List ℕ
decode_end ch d =
    let n = d.i % 4 in
    if (ch == 61) && (n == 1)
    then (minus_one, d.done ++ (d.cur ∷ []))
    else if (ch == 61) && (n == 2)
    then (length d.done, d.done ++ (0 ∷ 0 ∷ []))
    else (length d.done, d.done ++ (0 ∷ []))

-- What it returns, and the bytes that it writes; `desc` says whether the pointer is not NULL.
unfoldable pub decode_b64 : Bool → List ℕ → ℕ → Option (ℕ × List ℕ)
decode_b64 desc str len =
    let decoded : Option (ℕ × List ℕ) = do
      (ch, d) ← decode_loop str len (record { i = 0; done = []; cur = 0 })
      some (decode_end ch d)
    in if not desc then some (minus_one, []) else decoded
