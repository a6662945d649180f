-- ===== src/IoUtils/Laws.antt =====
-- What the loops of lib/io_utils.c pass and return.
use hsbsw.Prelude.{
  ℕ, ◌+◌, ◌-◌, ◌≤◌, ◌<◌, ◌≡◌, ◌⊎◌, inl, inr, refl, true, false, List, [], ◌∷◌, arith, Option, none,
  some, map,
}
use Prim.Native.Nat.{min}
use hsbsw.Codes.{minus_one}
use hsbsw.IoUtils.{Turn, Passed, all_passed, read_loop, read_timeout, write_loop, write_timeout}

-- No more than asked for has passed, and that is what is returned, unless it is -1.
abbrev pub IsBounded : ℕ → Passed → Type 0
IsBounded count p = (p.total ≤ count) × ((p.ret ≡ p.total) ⊎ (p.ret ≡ minus_one))

read_loop-IsBounded :
    (ts : List Turn) (count total : ℕ) → total ≤ count → IsBounded count (read_loop ts count total)
unfolding read_loop
read_loop-IsBounded [] count total h = (h, inl refl)
read_loop-IsBounded (Turn.time_up ∷ ts) count total h = (h, inl refl)
read_loop-IsBounded (Turn.select_interrupted ∷ ts) count total h = (h, inl refl)
read_loop-IsBounded (Turn.select_failed ∷ ts) count total h = (h, inr refl)
read_loop-IsBounded (Turn.interrupted true ∷ ts) count total h =
    read_loop-IsBounded ts count total h
read_loop-IsBounded (Turn.interrupted false ∷ ts) count total h = (h, inl refl)
read_loop-IsBounded (Turn.failed left ∷ ts) count total h = (h, inr refl)
read_loop-IsBounded (Turn.moves n left ∷ ts) count total h =
    ground (arith, h, read_loop-IsBounded ts count (total + min n (count - total)))

write_loop-IsBounded :
    (ts : List Turn) (count total : ℕ) → total ≤ count → IsBounded count (write_loop ts count total)
unfolding write_loop
write_loop-IsBounded [] count total h = (h, inl refl)
write_loop-IsBounded (Turn.time_up ∷ ts) count total h = (h, inl refl)
write_loop-IsBounded (Turn.select_interrupted ∷ ts) count total h = (h, inl refl)
write_loop-IsBounded (Turn.select_failed ∷ ts) count total h = (h, inr refl)
write_loop-IsBounded (Turn.interrupted true ∷ ts) count total h =
    write_loop-IsBounded ts count total h
write_loop-IsBounded (Turn.interrupted false ∷ ts) count total h = (h, inl refl)
write_loop-IsBounded (Turn.failed left ∷ ts) count total h = (h, inr refl)
write_loop-IsBounded (Turn.moves n left ∷ ts) count total h =
    ground (arith, h, write_loop-IsBounded ts count (total + min n (count - total)))

-- Whatever `select` and the file meet, the two loops pass no more bytes than asked for, and return how
-- many have passed, or -1.
pub timeout-IsBounded :
    (ts : List Turn) (count : ℕ)
    → IsBounded count (read_timeout ts count) × IsBounded count (write_timeout ts count)
unfolding read_timeout write_timeout
timeout-IsBounded ts count =
    (read_loop-IsBounded ts count 0 (omega arith), write_loop-IsBounded ts count 0 (omega arith))

-- Turns in which bytes pass, or a signal interrupts the read or write, while time is left: the bytes on
-- offer in each.
abbrev pub turn : Option ℕ → Turn
turn none = Turn.interrupted true
turn (some n) = Turn.moves (1 + n) true

abbrev pub offered : List (Option ℕ) → ℕ
offered [] = 0
offered (none ∷ os) = offered os
offered (some n ∷ os) = 1 + n + offered os

read_loop-offered :
    (os : List (Option ℕ)) (count total : ℕ)
    → total < count
    → read_loop (map turn os) count total ≡ all_passed (min count (total + offered os))
unfolding read_loop
read_loop-offered [] count total h = ground (arith, h)
read_loop-offered (none ∷ os) count total h = read_loop-offered os count total h
read_loop-offered (some n ∷ os) count total h =
    ground (arith, h, read_loop-offered os count (total + min (1 + n) (count - total)))

write_loop-offered :
    (os : List (Option ℕ)) (count total : ℕ)
    → total < count
    → write_loop (map turn os) count total ≡ all_passed (min count (total + offered os))
unfolding write_loop
write_loop-offered [] count total h = ground (arith, h)
write_loop-offered (none ∷ os) count total h = write_loop-offered os count total h
write_loop-offered (some n ∷ os) count total h =
    ground (arith, h, write_loop-offered os count (total + min (1 + n) (count - total)))

-- If `select` finds the file ready in each turn before the time is up, and its read or write either
-- passes some bytes or is interrupted by a signal while time is left, then the two loops pass and
-- return what they are asked for, or all that is on offer in these turns if that is less; for a count
-- that is not 0. A signal in `select` itself is not among these turns.
pub timeout-offered :
    (os : List (Option ℕ)) (count : ℕ)
    → 0 < count
    → (read_timeout (map turn os) count ≡ all_passed (min count (offered os)))
      × (write_timeout (map turn os) count ≡ all_passed (min count (offered os)))
unfolding read_timeout write_timeout
timeout-offered os count h = (
  ground (arith, read_loop-offered os count 0 h),
  ground (arith, write_loop-offered os count 0 h),
)
