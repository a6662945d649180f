-- ===== src/Utils/Lines.antt =====
-- Lines and prefixes, `readline1` and `check_cmd_prefix` of lib/utils.c.
pub mod Laws
use hsbsw.Prelude.{
  zero, suc, ℕ, ◌+◌, ◌-◌, ◌==◌, Bool, true, false, List, [], ◌∷◌, ◌&&◌, leb, if◌then◌else◌,
}
use hsbsw.Codes.{minus_one}

-- What `read` of one byte gives in turn.
pub data Read : Type 0 where
  byte : ℕ → Read
  at_end interrupted broken : Read

-- What is returned, and the characters that have been stored; a 0 ends them unless the read failed.
pub record ReadLine : Type 0 where
  pub ret : ℕ
  pub chars : List ℕ

abbrev pub stored : ℕ → ReadLine → ReadLine
stored c l = record { ret = l.ret; chars = c ∷ l.chars }

-- The loop of `readline1` from `n` on, with `room` rounds left; what `read` gives ends with `at_end`.
unfoldable pub read_chars : List Read → ℕ → ℕ → ReadLine
read_chars rs n zero = record { ret = n; chars = [] }
read_chars [] n (suc room) = record { ret = if n == 1 then 0 else n; chars = [] }
read_chars (at_end ∷ rs) n (suc room) = record { ret = if n == 1 then 0 else n; chars = [] }
read_chars (interrupted ∷ rs) n (suc room) = read_chars rs n (suc room)
read_chars (broken ∷ rs) n (suc room) = record { ret = minus_one; chars = [] }
read_chars (byte c ∷ rs) n (suc room) =
    let rest = stored c (read_chars rs (suc n) room) in
    if c == b'\n' then record { ret = n; chars = c ∷ [] } else rest

-- For a buffer of at least one byte.
unfoldable pub readline1 : List Read → ℕ → ReadLine
readline1 rs maxlen = read_chars rs 1 (maxlen - 1)

-- `tolower` on ASCII, as `strncasecmp` compares.
abbrev pub lower : ℕ → ℕ
lower c = if leb b'A' c && leb c b'Z' then c + 32 else c

-- `strncasecmp(cmd, prefix, strlen(prefix))` is 0, for strings without their 0.
unfoldable pub same_start : List ℕ → List ℕ → Bool
same_start cmd [] = true
same_start [] (p ∷ prefix) = false
same_start (c ∷ cmd) (p ∷ prefix) = (lower c == lower p) && same_start cmd prefix

-- For pointers that are not NULL: 0, or the pattern of -2.
unfoldable pub check_cmd_prefix : List ℕ → List ℕ → ℕ
check_cmd_prefix cmd prefix = if same_start cmd prefix then 0 else minus_one - 1
