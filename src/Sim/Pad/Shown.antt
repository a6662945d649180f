-- ===== src/Sim/Pad/Shown.antt =====
-- What the simulated client shows of a packet from the box, `deal_tcp_pkt` of misc/pad_sim.c, and how
-- it finds the box, `probe_box`.
pub mod Tables
pub mod Lists
pub mod Written
pub mod Headers
pub mod Replies
use hsbsw.Prelude.{
  ℕ, zero, suc, ◌+◌, ◌-◌, ◌*◌, ◌/◌, List, [], ◌∷◌, Option, some, ◌==◌, if◌then◌else◌,
}
use hsbsw.Codes.Cmd
use hsbsw.Device.Types.{Evt, Timer, Delay, Linkage}
use hsbsw.Network.Field.{
  Buf, ◌>>=◌, get_u8, get_u16, get_u32, get_bytes, set_u8, set_u16, make_cmd_hdr, zero_buf,
}
use hsbsw.Sim.{Datagram}

-- What is printed, with the numbers that are read from the packet.
pub data Shown : Type 0 where
  ids : List ℕ → Shown
  dev_identity : ℕ → ℕ → ℕ → ℕ → List ℕ → Shown
  dev_status : ℕ → List (ℕ × ℕ) → Shown
  dev_timer : ℕ → Timer → Shown
  dev_delay : ℕ → Delay → Shown
  dev_linkage : ℕ → Linkage → Shown
  dev_evt : Evt → Shown
  call_result unknown_cmd : ℕ → Shown

-- The loop over the ids, with `n` rounds left.
unfoldable pub show_ids : ℕ → ℕ → Buf → Option (List ℕ)
show_ids zero cnt buf = some []
show_ids (suc n) cnt buf = do
  dev_id ← get_u32 buf (4 + cnt * 4)
  rest ← show_ids n (suc cnt) buf
  some (dev_id ∷ rest)

-- The loop over the entries of a status, with `n` rounds left.
unfoldable pub show_entries : ℕ → ℕ → Buf → Option (List (ℕ × ℕ))
show_entries zero cnt buf = some []
show_entries (suc n) cnt buf = do
  id ← get_u16 buf (8 + cnt * 4)
  val ← get_u16 buf (10 + cnt * 4)
  rest ← show_entries n (suc cnt) buf
  some ((id, val) ∷ rest)

unfoldable pub show_info : Buf → Option Shown
unfolding get_u16 get_u32 get_bytes
show_info buf = do
  dev_id ← get_u32 buf 4
  drvid ← get_u32 buf 8
  dev_class ← get_u16 buf 12
  interface ← get_u16 buf 14
  mac ← get_bytes 6 buf 16
  some (dev_identity dev_id drvid dev_class interface mac)

unfoldable pub show_timer : Buf → Option Shown
unfolding get_u8 get_u16 get_u32
show_timer buf = do
  dev_id ← get_u32 buf 4
  timer_id ← get_u16 buf 8
  work_mode ← get_u8 buf 10
  flag ← get_u8 buf 11
  hour ← get_u8 buf 12
  min ← get_u8 buf 13
  sec ← get_u8 buf 14
  wday ← get_u8 buf 15
  act_id ← get_u16 buf 16
  act_param1 ← get_u16 buf 18
  act_param2 ← get_u32 buf 20
  some (
      dev_timer dev_id (record {
        id = timer_id;
        work_mode = work_mode;
        flag = flag;
        hour = hour;
        min = min;
        sec = sec;
        wday = wday;
        act_id = act_id;
        act_param1 = act_param1;
        act_param2 = act_param2;
      }))

unfoldable pub show_delay : Buf → Option Shown
unfolding get_u8 get_u16 get_u32
show_delay buf = do
  dev_id ← get_u32 buf 4
  delay_id ← get_u16 buf 8
  work_mode ← get_u8 buf 10
  flag ← get_u8 buf 11
  evt_id ← get_u16 buf 12
  evt_param1 ← get_u16 buf 14
  evt_param2 ← get_u32 buf 16
  act_id ← get_u16 buf 20
  act_param1 ← get_u16 buf 22
  act_param2 ← get_u32 buf 24
  delay_sec ← get_u32 buf 28
  some (
      dev_delay dev_id (record {
        id = delay_id;
        work_mode = work_mode;
        flag = flag;
        evt_id = evt_id;
        evt_param1 = evt_param1;
        evt_param2 = evt_param2;
        act_id = act_id;
        act_param1 = act_param1;
        act_param2 = act_param2;
        delay_sec = delay_sec;
      }))

unfoldable pub show_linkage : Buf → Option Shown
unfolding get_u8 get_u16 get_u32
show_linkage buf = do
  dev_id ← get_u32 buf 4
  link_id ← get_u16 buf 8
  work_mode ← get_u8 buf 10
  flag ← get_u8 buf 11
  evt_id ← get_u16 buf 12
  evt_param1 ← get_u16 buf 14
  evt_param2 ← get_u32 buf 16
  act_devid ← get_u32 buf 20
  act_id ← get_u16 buf 24
  act_param1 ← get_u16 buf 26
  act_param2 ← get_u32 buf 28
  some (
      dev_linkage dev_id (record {
        id = link_id;
        work_mode = work_mode;
        flag = flag;
        evt_id = evt_id;
        evt_param1 = evt_param1;
        evt_param2 = evt_param2;
        act_devid = act_devid;
        act_id = act_id;
        act_param1 = act_param1;
        act_param2 = act_param2;
      }))

unfoldable pub show_event : Buf → Option Shown
unfolding get_u16 get_u32
show_event buf = do
  dev_id ← get_u32 buf 4
  evt_id ← get_u16 buf 8
  evt_param1 ← get_u16 buf 10
  evt_param2 ← get_u32 buf 12
  some (dev_evt (record { devid = dev_id; id = evt_id; param1 = evt_param1; param2 = evt_param2 }))

unfoldable pub show_status : ℕ → Buf → Option Shown
unfolding get_u32 show_entries
show_status len buf = do
  dev_id ← get_u32 buf 4
  entries ← show_entries ((len - 8) / 4) 0 buf
  some (dev_status dev_id entries)

-- The packet at the start of `buf`; how much was read is not looked at. A length below that of the
-- fixed part gives loops of no rounds, as the negative quotients of the source do.
unfoldable pub deal_tcp_pkt : Buf → Option Shown
unfolding get_u16 show_ids show_info show_status show_timer show_delay show_linkage show_event
deal_tcp_pkt buf = do
  cmd ← get_u16 buf 0
  len ← get_u16 buf 2
  let devs = show_ids ((len - 4) / 4) 0 buf >>= (λ ds. some (ids ds))
  let res = get_u16 buf 4 >>= (λ r. some (call_result r))
  if cmd == Cmd.get_devs_resp
      then devs
      else if cmd == Cmd.get_info_resp
      then show_info buf
      else if cmd == Cmd.get_status_resp
      then show_status len buf
      else if cmd == Cmd.get_timer_resp
      then show_timer buf
      else if cmd == Cmd.get_delay_resp
      then show_delay buf
      else if cmd == Cmd.get_linkage_resp
      then show_linkage buf
      else if cmd == Cmd.event
      then show_event buf
      else if cmd == Cmd.result
      then res
      else some (unknown_cmd cmd)

-- The broadcast of `probe_box`: `sendline`, and how many of its bytes are sent.
unfoldable pub discover_request : Option Datagram
unfolding make_cmd_hdr set_u8 set_u16
discover_request = do
  b ← make_cmd_hdr Cmd.box_discover 8 (zero_buf 16)
  b ← set_u8 b 4 0
  b ← set_u8 b 5 1
  b ← set_u16 b 6 1
  some (b, 8)

-- `cmd`, `len` and `bid` of `recvline`
unfoldable pub discover_answer : Buf → Option (ℕ × ℕ × ℕ)
unfolding get_u16
discover_answer recvline = do
  cmd ← get_u16 recvline 0
  len ← get_u16 recvline 2
  bid ← get_u16 recvline 6
  some (cmd, len, bid)
