-- ===== src/Sim.antt =====
-- The simulator of a virtual switch, misc/switch_sim.c: what it answers, and what it tells the box.
pub mod Laws
pub mod Heard
pub mod Pad
mod Tests
use hsbsw.Prelude.{ℕ, ◌+◌, ◌%◌, List, [], ◌∷◌, Option, none, some, ◌==◌, not, if◌then◌else◌}
use hsbsw.Network.Field.{Buf, ◌>>=◌, get_u16, get_u32, set_u8, set_u16, zero_buf}
use hsbsw.Network.Reply.{put_bytes}
use hsbsw.Switch.{vs_status_changed, vs_evt}
use hsbsw.Switch.Probe.{vs_device_discover, vs_device_discover_resp}
use hsbsw.Switch.Ops.{vs_get_status, vs_get_status_resp, vs_set_status, vs_do_action, vs_result}

abbrev pub vs_get_info : ℕ
vs_get_info = 0x8911

abbrev pub vs_get_info_resp : ℕ
vs_get_info_resp = 0x8912

abbrev pub vs_keep_alive : ℕ
vs_keep_alive = 0x8951

-- `mac`
abbrev pub sim_mac : List ℕ
sim_mac = 1 ∷ 2 ∷ 3 ∷ 4 ∷ 5 ∷ 6 ∷ []

-- A datagram: an array and the number of its bytes that are sent.
abbrev pub Datagram : Type 0
Datagram = Buf × ℕ

-- The command and the length of a packet in the cleared `rbuf`.
unfoldable pub sim_header : ℕ → ℕ → ℕ → Option Buf
unfolding set_u16
sim_header size cmd rlen = do b ← set_u16 (zero_buf size) 0 cmd; set_u16 b 2 rlen

-- A packet of 8 bytes with two values.
unfoldable pub sim_pair : ℕ → ℕ → ℕ → ℕ → Option Datagram
unfolding sim_header set_u16
sim_pair size cmd first second = do
  b ← sim_header size cmd 8
  b ← set_u16 b 4 first
  b ← set_u16 b 6 second
  some (b, 8)

-- case VS_CMD_DEVICE_DISCOVER
unfoldable pub sim_discover : Option Datagram
unfolding sim_header set_u8 set_u16 put_bytes
sim_discover = do
  b ← sim_header 64 vs_device_discover_resp 32
  b ← set_u8 b 4 0
  b ← set_u8 b 5 1
  b ← set_u16 b 8 0
  b ← set_u16 b 10 0
  b ← put_bytes 6 12 sim_mac b
  some (b, 32)

-- case VS_CMD_GET_INFO
unfoldable pub sim_get_info : Option Datagram
unfolding sim_header set_u16 put_bytes
sim_get_info = do
  b ← sim_header 64 vs_get_info_resp 28
  b ← set_u16 b 4 0
  b ← set_u16 b 6 0
  b ← put_bytes 6 8 sim_mac b
  some (b, 28)

-- A packet that is only a header.
unfoldable pub sim_alive : Option Datagram
sim_alive = do b ← sim_header 64 vs_keep_alive 4; some (b, 4)

-- A RESULT of 8 bytes.
unfoldable pub sim_result : ℕ → Option Datagram
unfolding sim_header set_u16
sim_result result = do b ← sim_header 64 vs_result 8; b ← set_u16 b 4 result; some (b, 8)

-- What one packet leads to: the answer, the broadcast if there is one, and `status_on_off`.
pub record Reaction : Type 0 where
  pub reply : Option Datagram
  pub cast : Option Datagram
  pub status : ℕ

abbrev pub answers : ℕ → Datagram → Reaction
answers s d = record { reply = some d; cast = none; status = s }

-- case VS_CMD_SET_STATUS: a status other than 0 is answered with no bytes.
unfoldable pub sim_set_status : Buf → ℕ → Option Reaction
unfolding sim_pair sim_result get_u16
sim_set_status buf s = do
  status_id ← get_u16 buf 4
  status ← get_u16 buf 6
  r ← sim_result 1
  c ← sim_pair 64 vs_status_changed 0 status
  some (
      if not (0 == status_id)
      then answers s (zero_buf 64, 0)
      else if not (status == s)
      then record { reply = some r; cast = some c; status = status }
      else answers s r)

-- case VS_CMD_DO_ACTION
unfoldable pub sim_do_action : Buf → ℕ → Option Reaction
unfolding sim_result get_u16 get_u32
sim_do_action buf s = do
  act_id ← get_u16 buf 4
  act_param1 ← get_u16 buf 6
  act_param2 ← get_u32 buf 8
  r ← sim_result 1
  some (answers s r)

unfoldable pub sim_switch : ℕ → Buf → ℕ → Option Reaction
sim_switch cmd buf s =
    let answered : Option Datagram → Option Reaction = λ o. do d ← o; some (answers s d)
    in if cmd == vs_device_discover
      then answered sim_discover
      else if cmd == vs_get_info
      then answered sim_get_info
      else if cmd == vs_get_status
      then answered (sim_pair 64 vs_get_status_resp 0 s)
      else if cmd == vs_set_status
      then sim_set_status buf s
      else if cmd == vs_do_action
      then sim_do_action buf s
      else if cmd == vs_keep_alive
      then answered sim_alive
      else answered (sim_result 0)

-- `deal_udp_pkt` on a datagram of `count` bytes; `none` is an access out of an array.
unfoldable pub sim_udp_pkt : Buf → ℕ → ℕ → Option Reaction
sim_udp_pkt buf count s = do
  cmd ← get_u16 buf 0
  len ← get_u16 buf 2
  if not (len == count)
      then some (record { reply = none; cast = none; status = s })
      else sim_switch cmd buf s

-- A line of input, as `sscanf` reads it.
pub data Input : Type 0 where
  status sensor key : ℕ → Input
  other : Input

-- `deal_input_cmd`: the broadcast, if there is one, and `status_on_off`, a uint16_t.
unfoldable pub sim_input : Input → ℕ → Option (Option Datagram × ℕ)
sim_input (Input.status val) s =
    let changed : Option (Option Datagram × ℕ) = do
      d ← sim_pair 16 vs_status_changed 0 val
      some (some d, val % 65536)
    in if s == val then some (none, s) else changed
sim_input (Input.sensor val) s = do
  d ← sim_pair 16 vs_evt (if val == 0 then 1 else 0) 0
  some (some d, s)
sim_input (Input.key val) s = do d ← sim_pair 16 vs_evt 2 val; some (some d, s)
sim_input Input.other s = some (none, s)
