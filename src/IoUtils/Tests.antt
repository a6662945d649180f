-- ===== src/IoUtils/Tests.antt =====
-- Three turns for five bytes, the second of them interrupted.
use hsbsw.Prelude.{◌≡◌, arith, List, [], ◌∷◌, Option, none, some, true, map, ℕ}
use hsbsw.IoUtils.{Turn, all_passed, read_timeout, write_timeout}
use hsbsw.IoUtils.Laws.{turn, timeout-offered}

abbrev turns : List Turn
turns = Turn.moves 3 true ∷ Turn.failed true ∷ []

abbrev offers : List (Option ℕ)
offers = some 2 ∷ none ∷ some 3 ∷ []

timeout-offered_example :
    (read_timeout (map turn offers) 5 ≡ all_passed 5)
    × (write_timeout (map turn offers) 5 ≡ all_passed 5)
timeout-offered_example = timeout-offered offers 5 (omega arith)
