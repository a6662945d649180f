-- ===== src/Utils/Lines/Laws.antt =====
-- How many bytes `readline1` of lib/utils.c says that it has read.
use hsbsw.Prelude.{
  zero, suc, ℕ, ◌+◌, ◌-◌, ◌≡◌, ◌<◌, ◌==◌, false, List, [], ◌∷◌, ◌++◌, map, arith, length,
  length-append, All,
}
use hsbsw.Utils.Lines.{Read, byte, at_end, read_chars, readline1}

-- A text before the end of the line.
abbrev pub NoNewline : List ℕ → Type 0
NoNewline = All (λ c. (c == b'\n') ≡ false)

read_chars-newline :
    (text : List ℕ) (rs : List Read) (n room : ℕ)
    → NoNewline text
    → length text < room
    → read_chars (map byte text ++ (byte b'\n' ∷ rs)) n room
      ≡ record { ret = n + length text; chars = text ++ (b'\n' ∷ []) }
unfolding read_chars
read_chars-newline text rs n zero h l = absurd (omega arith)
read_chars-newline [] rs n (suc room) h l = ground arith
read_chars-newline (c ∷ text) rs n (suc room) h l =
    rw h.0 (ground (arith, read_chars-newline text rs (suc n) room h.1 (omega arith)))

read_chars-end :
    (text : List ℕ) (rs : List Read) (n room : ℕ)
    → NoNewline text
    → 1 < n + length text
    → length text < room
    → read_chars (map byte text ++ (at_end ∷ rs)) n room
      ≡ record { ret = n + length text; chars = text }
unfolding read_chars
read_chars-end text rs n zero h k l = absurd (omega arith)
read_chars-end [] rs n (suc room) h k l = ground arith
read_chars-end (c ∷ text) rs n (suc room) h k l =
    rw h.0 (ground (arith, read_chars-end text rs (suc n) room h.1 (omega arith) (omega arith)))

-- A line that fits with its newline is stored with it, and the result is the number of its bytes; but
-- a last line without a newline, which is not empty, is stored with a result that is one too large.
pub readline1-ret :
    (text : List ℕ) (rs : List Read) (maxlen : ℕ)
    → NoNewline text
    → length text + 1 < maxlen
    → (readline1 (map byte text ++ (byte b'\n' ∷ rs)) maxlen
        ≡ record { ret = length (text ++ (b'\n' ∷ [])); chars = text ++ (b'\n' ∷ []) })
      × (0 < length text
          → readline1 (map byte text ++ (at_end ∷ rs)) maxlen
            ≡ record { ret = length text + 1; chars = text })
unfolding readline1
readline1-ret text rs maxlen h l = (
  ground (
    arith,
    read_chars-newline text rs 1 (maxlen - 1) h (omega arith),
    length-append text (b'\n' ∷ []),
  ),
  λ some_text. ground (arith, read_chars-end text rs 1 (maxlen - 1) h (omega arith) (omega arith)),
)
