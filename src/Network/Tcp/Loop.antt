-- ===== src/Network/Tcp/Loop.antt =====
-- The end of the loop of `tcp_client_handler` of core_daemon/network.c over the packets of one read.
use hsbsw.Prelude.{
  ℕ, zero, suc, ◌+◌, ◌-◌, ◌*◌, ◌≤◌, ◌<◌, ◌≡◌, ◌≢◌, refl, List, Option, none, some, true, ◌==◌,
  arith, Bool-cases, Option-cases, inl, inr, sym, ◌∙◌,
}
use hsbsw.Codes.Cmd
use hsbsw.Device.Types.{World}
use hsbsw.Network.Field.{Buf, ◌>>=◌, get_u16, advance}
use hsbsw.Network.Request.{check_tcp_pkt_valid}
use hsbsw.Network.Tcp.{Run, Dealt, log, deal_cmd, deal_tcp_packet, tcp_loop, dealt}

-- The header of a packet that `check_tcp_pkt_valid` accepts when `left` bytes are there.
pub record HasHeader (buf : Buf) (cmd len : ℕ) : Type 0 where
  pub room : 4 ≤ buf.size
  pub cmd_field : buf.byte 0 + 256 * buf.byte 1 ≡ cmd
  pub len_field : buf.byte 2 + 256 * buf.byte 3 ≡ len

get_u16-cmd : (buf : Buf) (cmd len : ℕ) → HasHeader buf cmd len → get_u16 buf 0 ≡ some cmd
unfolding get_u16
get_u16-cmd buf cmd len h = ground arith

get_u16-len : (buf : Buf) (cmd len : ℕ) → HasHeader buf cmd len → get_u16 buf 2 ≡ some len
unfolding get_u16
get_u16-len buf cmd len h = ground arith

check_valid :
    (buf : Buf) (cmd len left : ℕ)
    → get_u16 buf 0 ≡ some cmd
    → get_u16 buf 2 ≡ some len
    → Cmd.valid cmd ≡ true
    → len ≤ left
    → 0 < left
    → check_tcp_pkt_valid buf left ≡ some 0
unfolding check_tcp_pkt_valid
check_valid buf cmd len left a b valid fits some_left = ground arith

-- What one call makes of a packet with a valid command: it uses up as many bytes as the length field
-- says, also if that is 0.
deal-used :
    (buf : Buf) (cmd len left : ℕ) (reply : Option ℕ) (w : World)
    → HasHeader buf cmd len
    → Cmd.valid cmd ≡ true
    → len ≤ left
    → 0 < left
    → deal_tcp_packet buf left reply w ≡ (deal_cmd cmd buf left reply w >>= λ a. some (dealt len a))
unfolding deal_tcp_packet
deal-used buf cmd len left reply w h valid fits some_left =
    let c = get_u16-cmd buf cmd len h in
    let l = get_u16-len buf cmd len h in
    rw (check_valid buf cmd len left c l valid fits some_left, c, l)

pub log-eq-done :
    (d : Dealt) (r : Run) (out : List (Buf × ℕ)) (w : World)
    → log d r ≡ Run.done out w
    → (out' : List (Buf × ℕ)) × (r ≡ Run.done out' w)
log-eq-done d (Run.done out' w') out w e = (out', ground arith)
log-eq-done d Run.fault out w e = absurd (cc)
log-eq-done d Run.out_of_fuel out w e = absurd (cc)

log-eq-out_of_fuel : (d : Dealt) (r : Run) → log d r ≡ Run.out_of_fuel → r ≡ Run.out_of_fuel
log-eq-out_of_fuel d (Run.done out' w') e = absurd (ground arith)
log-eq-out_of_fuel d Run.fault e = absurd (cc)
log-eq-out_of_fuel d Run.out_of_fuel e = refl

-- One round of the loop, where the call of `deal_tcp_packet` returns.
pub tcp_loop_round :
    (fuel : ℕ) (buf : Buf) (left : ℕ) (reply : Option ℕ) (w : World) (d : Dealt)
    → 0 < left
    → deal_tcp_packet buf left reply w ≡ some d
    → tcp_loop (suc fuel) buf left reply w
      ≡ log d (tcp_loop fuel (advance d.used buf) (left - d.used) reply d.world)
unfolding tcp_loop
tcp_loop_round fuel buf left reply w d some_left e = ground arith

pub tcp_loop_fault :
    (fuel : ℕ) (buf : Buf) (left : ℕ) (reply : Option ℕ) (w : World)
    → 0 < left
    → deal_tcp_packet buf left reply w ≡ none
    → tcp_loop (suc fuel) buf left reply w ≡ Run.fault
unfolding tcp_loop
tcp_loop_fault fuel buf left reply w some_left e = ground arith

-- A packet with a valid command and a length field of 0 is dealt with again and again: however long
-- the loop runs, and whatever the state is, it does not come to the end of the read.
pub tcp_loop_stuck :
    (fuel : ℕ) (buf : Buf) (cmd left : ℕ) (reply : Option ℕ) (w w' : World) (out : List (Buf × ℕ))
    → HasHeader buf cmd 0
    → Cmd.valid cmd ≡ true
    → 0 < left
    → tcp_loop fuel buf left reply w ≢ Run.done out w'
unfolding tcp_loop
tcp_loop_stuck zero buf cmd left reply w w' out h valid some_left done' = ground arith
tcp_loop_stuck (suc fuel) buf cmd left reply w w' out h valid some_left done' =
    let used = deal-used buf cmd 0 left reply w h valid (omega arith) some_left in
    elim (Option-cases (deal_cmd cmd buf left reply w)) [
      | inl e ↦ let stop = tcp_loop_fault fuel buf left reply w some_left (rw e at used) in cc
      | inr (a, e) ↦
          let round = tcp_loop_round fuel buf left reply w (dealt 0 a) some_left (rw e at used) in
          let (out', rest) = log-eq-done (dealt 0 a) _ out w' (sym round ∙ done') in
          tcp_loop_stuck fuel (advance 0 buf) cmd (left - 0) reply a.world w' out'
            (record {
              room = omega (arith, h.room);
              cmd_field = h.cmd_field;
              len_field = h.len_field;
            })
            valid (omega arith) rest
    ]

-- A call uses up nothing only for a packet with a valid command and a length field of 0.
deal-unused :
    (buf : Buf) (left : ℕ) (reply : Option ℕ) (w : World) (d : Dealt)
    → 0 < left
    → deal_tcp_packet buf left reply w ≡ some d
    → d.used ≡ 0
    → (cmd : ℕ) × HasHeader buf cmd 0 × (Cmd.valid cmd ≡ true)
unfolding deal_tcp_packet check_tcp_pkt_valid get_u16
deal-unused buf left reply w d some_left e u = (
  buf.byte 0 + 256 * buf.byte 1,
  record { room = ground (arith, e, u); cmd_field = refl; len_field = ground (arith, e, u) },
  ground (arith, e, u),
)

HasHeader-advance :
    (n i : ℕ) (buf : Buf) (cmd len : ℕ)
    → HasHeader (advance i (advance n buf)) cmd len
    → HasHeader (advance (n + i) buf) cmd len
HasHeader-advance n i buf cmd len h =
    let assoc : (k : ℕ) → n + i + k ≡ n + (i + k) = λ k. omega arith in
    record {
      room = omega (arith, h.room);
      cmd_field = rw (assoc 0, assoc 1) (h.cmd_field);
      len_field = rw (assoc 2, assoc 3) (h.len_field);
    }

-- If as many rounds as there are bytes do not bring the loop to an end, or to a fault, then at some
-- place of the read there is a header with a valid command and a length field of 0.
pub tcp_loop_ends :
    (fuel : ℕ) (buf : Buf) (left : ℕ) (reply : Option ℕ) (w : World)
    → left ≤ fuel
    → tcp_loop fuel buf left reply w ≡ Run.out_of_fuel
    → (i : ℕ) × (cmd : ℕ) × HasHeader (advance i buf) cmd 0 × (Cmd.valid cmd ≡ true) × (i < left)
unfolding tcp_loop
tcp_loop_ends zero buf left reply w enough over = absurd (ground arith)
tcp_loop_ends (suc fuel) buf left reply w enough over = elim (Bool-cases (left == 0)) [
  | inl e ↦ absurd (ground arith)
  | inr e ↦ elim (Option-cases (deal_tcp_packet buf left reply w)) [
    | inl f ↦ absurd (ground arith)
    | inr (d, f) ↦ elim (Bool-cases (d.used == 0)) [
      | inl z ↦
          let (cmd, h, valid) =
            deal-unused buf left reply w d (ground arith) f (ground (arith, z)) in
          (
            0,
            cmd,
            record {
              room = omega (arith, h.room);
              cmd_field = h.cmd_field;
              len_field = h.len_field;
            },
            valid,
            ground arith,
          )
      | inr nz ↦
          let (i, cmd, h, valid, small) =
            tcp_loop_ends fuel (advance d.used buf) (left - d.used) reply d.world
              (ground (arith, nz))
              (log-eq-out_of_fuel d _
                (sym (tcp_loop_round fuel buf left reply w d (ground arith) f) ∙ over)) in
          (d.used + i, cmd, HasHeader-advance d.used i buf cmd 0 h, valid, omega (arith, small))
    ]
  ]
]
