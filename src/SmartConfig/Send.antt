-- ===== src/SmartConfig/Send.antt =====
-- The datagrams of misc/smart_config.c, whose lengths are the codes, and the loop of `main`.
use hsbsw.Prelude.{
  zero, suc, ℕ, ◌+◌, ◌-◌, ◌%◌, ◌^◌, Bool, List, [], ◌∷◌, ◌++◌, ltb, leb, if◌then◌else◌, map, take,
  drop,
}
use hsbsw.SmartConfig.{Codes}

-- `_getNextDatagramCount`, with the counter afterwards.
abbrev pub next_datagram_count : ℕ → ℕ × ℕ
next_datagram_count count = (1 + count % 100, suc count)

-- A datagram to 234.n.n.n, of a number of bytes of `_code`.
pub record Sending : Type 0 where
  pub host : ℕ
  pub len : ℕ

-- `_send_data`, if the name is found and the socket opens, or not: what is sent, and the counter.
unfoldable pub send_data : Bool → List ℕ → ℕ → ℕ → ℕ → List Sending × ℕ
send_data ready buf offset len count =
    let (host, count') = next_datagram_count count in
    if ready
    then (map (λ n. record { host = host; len = n }) (take len (drop offset buf)), count')
    else ([], count')

abbrev pub guide_code : List ℕ
guide_code = 515 ∷ 514 ∷ 513 ∷ 512 ∷ []

-- The variables of `main`, the number of the next reading of the clock, the counter, and what has been
-- sent.
pub record Sender : Type 0 where
  pub index : ℕ
  pub current_time : ℕ
  pub last_time : ℕ
  pub reading : ℕ
  pub count : ℕ
  pub sent : List Sending

module _ (clock : ℕ → ℕ) (ready : ℕ → Bool) (start_time : ℕ) where
  -- A difference of two uint64_t.
  abbrev pub elapsed : ℕ → ℕ → ℕ
  elapsed a b = (a + 2 ^ 64 - b) % 2 ^ 64

  abbrev pub transmit : List ℕ → ℕ → ℕ → Sender → Sender
  transmit buf offset len s =
      let (ds, count) = send_data (ready s.count) buf offset len s.count in
      record s { count = count; sent = s.sent ++ ds }

  -- The inner loop, for `fuel` turns at most: the guide codes, for two seconds.
  unfoldable pub send_guide : ℕ → Sender → Sender
  unfolding send_data
  send_guide zero s = s
  send_guide (suc fuel) s =
      let t = record (transmit guide_code 0 4 s) { reading = s.reading + 2 } in
      let late = ltb 45000 (elapsed (clock (s.reading + 1)) start_time) in
      let rest = send_guide fuel t in
      if ltb (elapsed (clock s.reading) s.current_time) 2000
      then (if late then t else rest)
      else record s { reading = s.reading + 1 }

  -- What one turn of the loop of `main` sends.
  unfoldable pub send_turn : ℕ → Codes → Sender → Sender
  send_turn fuel codes s =
      if leb 6000 (elapsed s.current_time s.last_time)
      then record (send_guide fuel s) { last_time = s.current_time }
      else record (transmit codes.data_code s.index 3 s) { index = (s.index + 3) % codes.dc_len }

  -- The loop of `main`, for `fuel` turns at most.
  unfoldable pub send_loop : ℕ → Codes → Sender → Sender
  send_loop zero codes s = s
  send_loop (suc fuel) codes s =
      let t = send_turn fuel codes s in
      let u = record t { current_time = clock t.reading; reading = t.reading + 1 } in
      let rest = send_loop fuel codes u in
      if ltb 45000 (elapsed u.current_time start_time) then u else rest

-- `main` after `make_code`; the counter begins at 0.
unfoldable pub send_all : (ℕ → ℕ) → (ℕ → Bool) → ℕ → Codes → Sender
send_all clock ready fuel codes = send_loop clock ready (clock 0) fuel codes (record {
  index = 0;
  current_time = clock 0;
  last_time = (clock 0 + 2 ^ 64 - 6000) % 2 ^ 64;
  reading = 1;
  count = 0;
  sent = [];
})
