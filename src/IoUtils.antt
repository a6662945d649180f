-- ===== src/IoUtils.antt =====
-- The loops of lib/io_utils.c that read and write a number of bytes within a time.
pub mod Laws
mod Tests
use hsbsw.Prelude.{ℕ, ◌+◌, ◌-◌, Bool, List, [], ◌∷◌, ◌==◌, ltb, if◌then◌else◌}
use hsbsw.Codes.{minus_one}
use Prim.Native.Nat.{min}

-- What `select`, and then `read` or `write`, meet in one turn; the flag says whether time is left after
-- it. `moves n` lets up to `n` bytes pass.
pub data Turn : Type 0 where
  time_up select_interrupted select_failed : Turn
  interrupted failed : Bool → Turn
  moves : ℕ → Bool → Turn

-- What is returned, and how many bytes have passed, to or from the first places of `buf`.
pub record Passed : Type 0 where
  pub ret : ℕ
  pub total : ℕ

abbrev pub all_passed : ℕ → Passed
all_passed total = record { ret = total; total = total }

abbrev pub gave_up : ℕ → Passed
gave_up total = record { ret = minus_one; total = total }

-- The loop of `read_timeout` with the turns to come, of which none are left when the time is up, and
-- `total` bytes read.
unfoldable pub read_loop : List Turn → ℕ → ℕ → Passed
read_loop [] count total = all_passed total
read_loop (Turn.time_up ∷ ts) count total = all_passed total
read_loop (Turn.select_interrupted ∷ ts) count total = all_passed total
read_loop (Turn.select_failed ∷ ts) count total = gave_up total
read_loop (Turn.interrupted left ∷ ts) count total =
    let rest = read_loop ts count total in if left then rest else all_passed total
read_loop (Turn.failed left ∷ ts) count total = gave_up total
read_loop (Turn.moves n left ∷ ts) count total =
    let nread = min n (count - total) in
    let rest = read_loop ts count (total + nread) in
    if nread == 0
    then gave_up total
    else if total + nread == count
    then all_passed count
    else if left
    then rest
    else all_passed (total + nread)

unfoldable pub read_timeout : List Turn → ℕ → Passed
read_timeout ts count = read_loop ts count 0

-- The same of `write_timeout`: a `write` of no bytes ends the loop, but is no failure.
unfoldable pub write_loop : List Turn → ℕ → ℕ → Passed
write_loop [] count total = all_passed total
write_loop (Turn.time_up ∷ ts) count total = all_passed total
write_loop (Turn.select_interrupted ∷ ts) count total = all_passed total
write_loop (Turn.select_failed ∷ ts) count total = gave_up total
write_loop (Turn.interrupted left ∷ ts) count total =
    let rest = write_loop ts count total in if left then rest else all_passed total
write_loop (Turn.failed left ∷ ts) count total = gave_up total
write_loop (Turn.moves n left ∷ ts) count total =
    let nwrite = min n (count - total) in
    let rest = write_loop ts count (total + nwrite) in
    if nwrite == 0
    then all_passed total
    else if total + nwrite == count
    then all_passed count
    else if left
    then rest
    else all_passed (total + nwrite)

unfoldable pub write_timeout : List Turn → ℕ → Passed
write_timeout ts count = write_loop ts count 0
