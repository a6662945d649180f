-- ===== src/Sim/Pad.antt =====
-- The requests of the simulated client, `deal_input_cmd` of misc/pad_sim.c.
pub mod Laws
pub mod Shown
pub mod Ask
mod Tests
use hsbsw.Prelude.{ℕ, Option, none, some}
use hsbsw.Codes.Cmd
use hsbsw.Network.Field.{Buf, ◌>>=◌, set_u8, set_u16, set_u32, zero_buf, make_cmd_hdr}
use hsbsw.Sim.{Datagram}

-- A line of input, as `strncmp` and `sscanf` read it.
pub data Line : Type 0 where
  get_devices invalid : Line
  get_info get_status probe : ℕ → Line
  set_status : ℕ → ℕ → ℕ → Line
  get_timer set_timer del_timer : ℕ → ℕ → Line
  action : ℕ → ℕ → ℕ → ℕ → Line

-- `rbuf`, cleared, with a command and a length
unfoldable pub pad_header : ℕ → ℕ → Option Buf
unfolding make_cmd_hdr
pad_header cmd len = make_cmd_hdr cmd len (zero_buf 16)

unfoldable pub pad_device : ℕ → ℕ → ℕ → Option Buf
unfolding pad_header set_u32
pad_device cmd len dev_id = do b ← pad_header cmd len; set_u32 b 4 dev_id

unfoldable pub pad_slot : ℕ → ℕ → ℕ → Option Datagram
unfolding pad_device set_u16
pad_slot cmd dev_id slot = do b ← pad_device cmd 12 dev_id; b ← set_u16 b 8 slot; some (b, 12)

unfoldable pub pad_set_timer : ℕ → ℕ → Option Datagram
unfolding pad_device set_u8 set_u16
pad_set_timer dev_id timer_id = do
  b ← pad_device Cmd.set_timer 24 dev_id
  b ← set_u16 b 8 timer_id
  b ← set_u8 b 10 0xff
  b ← set_u8 b 11 0
  b ← set_u8 b 12 21
  b ← set_u8 b 13 49
  b ← set_u8 b 14 0
  b ← set_u8 b 15 0x7f
  b ← set_u16 b 16 0
  b ← set_u16 b 18 1
  some (b, 24)

unfoldable pub pad_set_status : ℕ → ℕ → ℕ → Option Datagram
unfolding pad_device set_u16
pad_set_status dev_id id val = do
  b ← pad_device Cmd.set_status 12 dev_id
  b ← set_u16 b 8 id
  b ← set_u16 b 10 val
  some (b, 12)

unfoldable pub pad_action : ℕ → ℕ → ℕ → ℕ → Option Datagram
unfolding pad_device set_u16 set_u32
pad_action dev_id id param1 param2 = do
  b ← pad_device Cmd.do_action 16 dev_id
  b ← set_u16 b 8 id
  b ← set_u16 b 10 param1
  b ← set_u32 b 12 param2
  some (b, 16)

-- A packet of `len` bytes.
abbrev pub of_length : ℕ → Option Buf → Option Datagram
of_length len o = do b ← o; some (b, len)

-- What is written to the box; `none` is an access out of `rbuf`. An invalid line writes nothing.
unfoldable pub pad_request : Line → Option Datagram
unfolding pad_header pad_device pad_slot pad_set_timer pad_set_status pad_action set_u16
pad_request Line.get_devices = of_length 4 (pad_header Cmd.get_devs 4)
pad_request Line.invalid = some (zero_buf 16, 0)
pad_request (Line.get_info dev_id) = of_length 8 (pad_device Cmd.get_info 8 dev_id)
pad_request (Line.get_status dev_id) = of_length 8 (pad_device Cmd.get_status 8 dev_id)
pad_request (Line.probe drv_id) = do
  b ← pad_header Cmd.probe_dev 8
  b ← set_u16 b 4 drv_id
  some (b, 8)
pad_request (Line.set_status dev_id id val) = pad_set_status dev_id id val
pad_request (Line.get_timer dev_id timer_id) = pad_slot Cmd.get_timer dev_id timer_id
pad_request (Line.set_timer dev_id timer_id) = pad_set_timer dev_id timer_id
pad_request (Line.del_timer dev_id timer_id) = pad_slot Cmd.del_timer dev_id timer_id
pad_request (Line.action dev_id id param1 param2) = pad_action dev_id id param1 param2
