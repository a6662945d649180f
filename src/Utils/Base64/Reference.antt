-- ===== src/Utils/Base64/Reference.antt =====
-- Base64 as RFC 4648 describes it, for lib/utils.c: groups of 24 bits, an alphabet, padding.
use hsbsw.Prelude.{ℕ, zero, suc, ◌+◌, ◌*◌, ◌/◌, ◌%◌, List, [], ◌∷◌, ◌++◌, map, get_or}

abbrev pub letters : ℕ → ℕ → List ℕ
letters first zero = []
letters first (suc n) = first ∷ letters (first + 1) n

-- A to Z, a to z, 0 to 9, + and /
abbrev pub alphabet : List ℕ
alphabet = letters 65 26 ++ letters 97 26 ++ letters 48 10 ++ (43 ∷ 47 ∷ [])

abbrev pub digit : ℕ → ℕ
digit v = get_or alphabet v 0

abbrev pub pad : ℕ
pad = 61

-- The bytes of a group as one number, and its four digits to the base 64.
abbrev pub group : ℕ → ℕ → ℕ → ℕ
group a b c = 65536 * a + 256 * b + c

abbrev pub digits : ℕ → List ℕ
digits n = map digit (n / 262144 ∷ n / 4096 % 64 ∷ n / 64 % 64 ∷ n % 64 ∷ [])

abbrev pub base64 : List ℕ → List ℕ
base64 [] = []
base64 (a ∷ []) = digit (group a 0 0 / 262144) ∷ digit (group a 0 0 / 4096 % 64) ∷ pad ∷ pad ∷ []
base64 (a ∷ b ∷ []) =
    digit (group a b 0 / 262144)
    ∷ digit (group a b 0 / 4096 % 64)
    ∷ digit (group a b 0 / 64 % 64)
    ∷ pad
    ∷ []
base64 (a ∷ b ∷ c ∷ src) = digits (group a b c) ++ base64 src
