-- ===== src/SmartConfig/Sent.antt =====
-- What the loop of `main` of misc/smart_config.c sends.
use hsbsw.Prelude.{
  zero, suc, ℕ, ◌+◌, ◌*◌, ◌%◌, ◌≡◌, ◌<◌, ◌⊎◌, inl, inr, ◌∙◌, refl, ap, Bool, Bool-cases, List, [],
  ◌∷◌, ltb, leb, arith, get_or, map, take, drop, All, All-append,
}
use native.Mathlib.Decide.{dec_lt}
use native.Mathlib.Nat.{mod_self}
use hsbsw.SmartConfig.{Codes}
use hsbsw.SmartConfig.Send.{
  Sending, send_data, guide_code, Sender, elapsed, transmit, send_guide, send_turn, send_loop,
  send_all,
}

-- A length is a guide code, or one of the codes below `dc_len`.
abbrev pub IsCode : Codes → Sending → Type 0
IsCode codes d =
    ((i : ℕ) × (i < 4) × (d.len ≡ get_or guide_code i 0))
    ⊎ ((i : ℕ) × (i < codes.dc_len) × (d.len ≡ get_or codes.data_code i 0))

abbrev pub SendsCodes : Codes → Sender → Type 0
SendsCodes codes s = All (IsCode codes) s.sent

-- What holds of the entries of a piece of an array.
All-take_drop :
    (f : ℕ → Sending) (P : Sending → Type 0) (buf : List ℕ) (offset n : ℕ)
    → ((i : ℕ) → i < offset + n → P (f (get_or buf i 0)))
    → All P (map f (take n (drop offset buf)))
All-take_drop f P buf zero zero h = tt
All-take_drop f P buf (suc offset) zero h = tt
All-take_drop f P [] zero (suc n) h = tt
All-take_drop f P [] (suc offset) (suc n) h = tt
All-take_drop f P (x ∷ buf) zero (suc n) h =
    (h 0 (omega arith), All-take_drop f P buf 0 n (λ i l. h (suc i) (omega arith)))
All-take_drop f P (x ∷ buf) (suc offset) (suc n) h =
    All-take_drop f P buf offset (suc n) (λ i l. h (suc i) (omega arith))

module _ (codes : Codes) (m : ℕ) (whole : codes.dc_len ≡ 3 * m) (some_codes : 0 < m) where
  -- The place is at a triple below `dc_len`.
  abbrev AtTriple : Sender → Type 0
  AtTriple s = (j : ℕ) × (s.index ≡ 3 * j) × (j < m)

  module _ (clock : ℕ → ℕ) (ready : ℕ → Bool) (start_time : ℕ) where
    transmit-SendsCodes :
        (buf : List ℕ) (offset len : ℕ) (s : Sender)
        → ((host i : ℕ)
            → i < offset + len
            → IsCode codes (record { host = host; len = get_or buf i 0 }))
        → SendsCodes codes s
        → SendsCodes codes (transmit clock ready start_time buf offset len s)
    unfolding send_data
    transmit-SendsCodes buf offset len s h sends = elim (Bool-cases (ready s.count)) [
      | inl e ↦ rw e (
          All-append (IsCode codes) s.sent _ sends
            (All-take_drop _ (IsCode codes) buf offset len (h (1 + s.count % 100))))
      | inr e ↦ rw e (All-append (IsCode codes) s.sent [] sends tt)
    ]

    send_guide-SendsCodes :
        (fuel : ℕ) (s : Sender)
        → AtTriple s × SendsCodes codes s
        → AtTriple (send_guide clock ready start_time fuel s)
          × SendsCodes codes (send_guide clock ready start_time fuel s)
    unfolding send_guide
    send_guide-SendsCodes zero s h = h
    send_guide-SendsCodes (suc fuel) s h =
        let t = record (transmit clock ready start_time guide_code 0 4 s) {
          reading = s.reading + 2;
        } in
        let sends =
          transmit-SendsCodes guide_code 0 4 s (λ host i l. inl (i, omega arith, refl)) h.1 in
        let ih = send_guide-SendsCodes fuel t (h.0, sends) in
        elim (Bool-cases
          (ltb (elapsed clock ready start_time (clock s.reading) s.current_time) 2000)) [
            | inl e ↦
                elim (Bool-cases
                  (ltb 45000 (elapsed clock ready start_time (clock (s.reading + 1)) start_time))) [
                    | inl late ↦ rw (e, late) (h.0, sends)
                    | inr more ↦ rw (e, more) ih
                  ]
            | inr e ↦ rw e h
          ]

    next_triple :
        (n j : ℕ) → n ≡ 3 * j → j < m → (k : ℕ) × ((n + 3) % codes.dc_len ≡ 3 * k) × (k < m)
    next_triple n j e l = elim (dec_lt (suc j) m) [
      | yes h ↦ (suc j, grind arith, h)
      | no h ↦ (
        0,
        (let all : n + 3 ≡ codes.dc_len = omega arith in
            ap (λ k. k % codes.dc_len) all ∙ mod_self codes.dc_len),
        some_codes,
      )
    ]

    send_turn-SendsCodes :
        (fuel : ℕ) (s : Sender)
        → AtTriple s × SendsCodes codes s
        → AtTriple (send_turn clock ready start_time fuel codes s)
          × SendsCodes codes (send_turn clock ready start_time fuel codes s)
    unfolding send_turn
    send_turn-SendsCodes fuel s h =
        elim (Bool-cases (leb 6000 (elapsed clock ready start_time s.current_time s.last_time))) [
          | inl e ↦ rw e (send_guide-SendsCodes fuel s h)
          | inr e ↦
              let (j, at, l) = h.0 in
              rw e (
                next_triple s.index j at l,
                transmit-SendsCodes codes.data_code s.index 3 s
                    (λ host i k. inr (i, omega arith, refl)) h.1,
              )
        ]

    send_loop-SendsCodes :
        (fuel : ℕ) (s : Sender)
        → AtTriple s × SendsCodes codes s
        → SendsCodes codes (send_loop clock ready start_time fuel codes s)
    unfolding send_loop
    send_loop-SendsCodes zero s h = h.1
    send_loop-SendsCodes (suc fuel) s h =
        let t = send_turn clock ready start_time fuel codes s in
        let turn = send_turn-SendsCodes fuel s h in
        let u = record t { current_time = clock t.reading; reading = t.reading + 1 } in
        let ih = send_loop-SendsCodes fuel u turn in
        elim (Bool-cases (ltb 45000 (elapsed clock ready start_time u.current_time start_time))) [
          | inl e ↦ rw e turn.1
          | inr e ↦ rw e ih
        ]

  -- If `dc_len` counts whole triples: however the clock runs, and for as many turns as one looks at,
  -- every datagram has the length of a guide code or of a code below `dc_len`.
  pub send_all-SendsCodes :
      (clock : ℕ → ℕ) (ready : ℕ → Bool) (fuel : ℕ)
      → SendsCodes codes (send_all clock ready fuel codes)
  unfolding send_all
  send_all-SendsCodes clock ready fuel =
      send_loop-SendsCodes clock ready (clock 0) fuel _ ((0, refl, some_codes), tt)
