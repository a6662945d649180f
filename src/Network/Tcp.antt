-- ===== src/Network/Tcp.antt =====
-- `deal_tcp_packet` of core_daemon/network.c, and the loop of `tcp_client_handler` over the packets
-- that one `read` brought.
pub mod Loop
pub mod Keeps
use hsbsw.Prelude.{ℕ, zero, suc, ◌-◌, List, [], ◌∷◌, Option, none, some, ◌==◌, leb, if◌then◌else◌}
use hsbsw.Codes.Cmd
use hsbsw.Codes.{minus_one}
use hsbsw.Device.Types.{World}
use hsbsw.Network.Field.{Buf, ◌>>=◌, get_u16, advance}
use hsbsw.Network.Reply.{reply_result}
use hsbsw.Network.Request.{
  Answer, answer, reply_buf, check_tcp_pkt_valid, deal_get_devs, deal_get_info, deal_get_status,
  deal_set_status, deal_do_action, deal_probe_dev,
}
use hsbsw.Network.Slots.{
  deal_get_timer, deal_set_timer, deal_del_timer, deal_get_delay, deal_set_delay, deal_del_delay,
  deal_get_linkage, deal_set_linkage, deal_del_linkage,
}

-- REPLY_FAIL
abbrev pub reply_fail : ℕ
reply_fail = 0

-- The `switch` of `deal_tcp_packet`; `len` is the number of bytes that are left of the read, which
-- may go on past the packet.
unfoldable pub deal_cmd : ℕ → Buf → ℕ → Option ℕ → World → Option Answer
deal_cmd cmd buf len reply w =
    if cmd == Cmd.get_devs
    then deal_get_devs w
    else if cmd == Cmd.get_info
    then deal_get_info buf w
    else if cmd == Cmd.get_status
    then deal_get_status buf reply w
    else if cmd == Cmd.set_status
    then deal_set_status buf len reply w
    else if cmd == Cmd.get_timer
    then deal_get_timer buf w
    else if cmd == Cmd.set_timer
    then deal_set_timer buf w
    else if cmd == Cmd.del_timer
    then deal_del_timer buf w
    else if cmd == Cmd.get_delay
    then deal_get_delay buf w
    else if cmd == Cmd.set_delay
    then deal_set_delay buf w
    else if cmd == Cmd.del_delay
    then deal_del_delay buf w
    else if cmd == Cmd.get_linkage
    then deal_get_linkage buf w
    else if cmd == Cmd.set_linkage
    then deal_set_linkage buf w
    else if cmd == Cmd.del_linkage
    then deal_del_linkage buf w
    else if cmd == Cmd.do_action
    then deal_do_action buf reply w
    else if cmd == Cmd.probe_dev
    then deal_probe_dev buf reply w
    else answer w (reply_result reply_fail reply_buf)

-- What a call of `deal_tcp_packet` leaves: its result, `*used`, what it writes to the client, and
-- the state.
pub record Dealt : Type 0 where
  pub ret : ℕ
  pub used : ℕ
  pub reply : Buf
  pub rlen : ℕ
  pub world : World

abbrev pub dealt : ℕ → Answer → Dealt
dealt used a = record { ret = 0; used = used; reply = a.reply; rlen = a.rlen; world = a.world }

-- A packet that is not valid uses up the whole read, and is not answered.
abbrev pub rejected : ℕ → World → Dealt
rejected len w = record { ret = minus_one; used = len; reply = reply_buf; rlen = 0; world = w }

-- `none` is an access out of an array, or through NULL.
unfoldable pub deal_tcp_packet : Buf → ℕ → Option ℕ → World → Option Dealt
deal_tcp_packet buf len reply w = do
  invalid ← check_tcp_pkt_valid buf len
  let valid : Option Dealt = do
    cmd ← get_u16 buf 0
    cmdlen ← get_u16 buf 2
    a ← deal_cmd cmd buf len reply w
    some (dealt cmdlen a)
  if invalid == 0 then valid else some (rejected len w)

-- How the loop over the packets of a read ends.
pub data Run : Type 0 where
  -- All bytes are used: what was written, oldest first, and the state.
  done : List (Buf × ℕ) → World → Run
  fault : Run
  out_of_fuel : Run

abbrev pub log : Dealt → Run → Run
log d (Run.done out w) =
    if leb d.rlen 0 then Run.done out w else Run.done ((d.reply, d.rlen) ∷ out) w
log d Run.fault = Run.fault
log d Run.out_of_fuel = Run.out_of_fuel

-- `while (nwrite < nread)`: `left` is `nread - nwrite`. A packet that uses more than is left ends
-- the loop as one that uses all.
unfoldable pub tcp_loop : ℕ → Buf → ℕ → Option ℕ → World → Run
tcp_loop zero buf left reply w = if left == 0 then Run.done [] w else Run.out_of_fuel
tcp_loop (suc fuel) buf left reply w =
    let next : Run = elim (deal_tcp_packet buf left reply w) [
      | none ↦ Run.fault
      | some d ↦ log d (tcp_loop fuel (advance d.used buf) (left - d.used) reply d.world)
    ] in
    if left == 0 then Run.done [] w else next
