-- ===== src/Utils/Tests.antt =====
-- "Ma" in base64, and bytes that no encoder writes.
use hsbsw.Prelude.{ℕ, ◌≡◌, refl, arith, true, List, [], ◌∷◌, some, All}
use hsbsw.Utils.Base64.{encrypt_b64, decode_b64, reverse_table}
use hsbsw.Utils.Base64.Laws.{IsByte, encrypt_b64-base64}
use hsbsw.Utils.Base64.RoundTrip.{decode_b64-encrypt_b64}

abbrev two : List ℕ
two = 77 ∷ 97 ∷ []

two-IsByte : All IsByte two
two-IsByte = (omega arith, (omega arith, tt))

encrypt_b64-base64_example : encrypt_b64 true (some two) ≡ (4, 84 ∷ 87 ∷ 69 ∷ 61 ∷ 0 ∷ [])
encrypt_b64-base64_example = encrypt_b64-base64 two two-IsByte

decode_b64-encrypt_b64_example :
    (rest : List ℕ) × (decode_b64 true
        (encrypt_b64 true (some two)).1
        (encrypt_b64 true (some two)).0
      ≡ some (2, 77 ∷ 97 ∷ 0 ∷ rest))
decode_b64-encrypt_b64_example = decode_b64-encrypt_b64 two two-IsByte

-- The entries behind the 240 that the table gives.
high_byte_is_A : reverse_table 240 ≡ some 0
unfolding reverse_table
high_byte_is_A = refl
