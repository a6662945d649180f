-- ===== src/Zigbee/Frame.antt =====
-- Frames from the serial line: `deal_recv_buf` and the part of `_monitor_thread` of
-- core_daemon/driver_cg_zigbee.c that reads one frame.
use hsbsw.Prelude.{ℕ, ◌+◌, ◌-◌, Option, none, some, ◌==◌, ltb, leb, not, ◌||◌, ◌&&◌, if◌then◌else◌}
use hsbsw.Codes.Error
use hsbsw.Network.Field.{get_bytes, Buf, ◌>>=◌, get_u8, get_u16, get_u32, advance}
use hsbsw.Zigbee.{
  CzInfo, CzBox, cz_header_magic, cz_header_len, cz_find_by_short_addr, cz_register_device,
  cz_event, cz_status_updated,
}
use hsbsw.Zigbee.Ops.{memcpy}

abbrev pub cz_device_discover_resp : ℕ
cz_device_discover_resp = 0x9102

abbrev pub cz_status_changed : ℕ
cz_status_changed = 0x9114

abbrev pub cz_evt : ℕ
cz_evt = 0x9121

-- A `CZ_INFO_T *`, read
unfoldable pub get_cz_info : Buf → Option CzInfo
unfolding get_bytes get_u8 get_u16 get_u32
get_cz_info ptr = do
  dev_class ← get_u16 ptr 0
  interface ← get_u16 ptr 2
  mac ← get_bytes 8 ptr 4
  status_bm ← get_u32 ptr 12
  event_bm ← get_u32 ptr 16
  action_bm ← get_u32 ptr 20
  some (record {
    dev_class = dev_class;
    interface = interface;
    mac = mac;
    status_bm = status_bm;
    event_bm = event_bm;
    action_bm = action_bm;
  })

-- case CZ_CMD_DEVICE_DISCOVER_RESP
unfoldable pub deal_discovered : Buf → ℕ → ℕ → ℕ → CzBox → Option (ℕ × CzBox)
deal_discovered ptr rlen short_addr end_point b =
    let registered : Option (ℕ × CzBox) = do
      info ← get_cz_info (advance 8 ptr)
      r ← cz_register_device short_addr end_point info b
      some (Error.ok, r.1)
    in if not (32 == rlen) then some (Error.others, b) else registered

-- case CZ_CMD_EVENT
unfoldable pub deal_event : Buf → ℕ → CzBox → Option (ℕ × CzBox)
deal_event ptr short_addr b = do
  id ← get_u16 ptr 4
  param ← get_u16 ptr 6
  param2 ← get_u32 ptr 8
  some (elim (cz_find_by_short_addr b.queue short_addr) [
    | none ↦ (Error.others, b)
    | some pdev ↦ (Error.ok, record b { world = cz_event pdev.id id param param2 b.world })
  ])

-- case CZ_CMD_STATUS_CHANGED
unfoldable pub deal_status_changed : Buf → ℕ → CzBox → Option (ℕ × CzBox)
deal_status_changed ptr short_addr b = do
  id ← get_u16 ptr 4
  val ← get_u16 ptr 6
  some (elim (cz_find_by_short_addr b.queue short_addr) [
    | none ↦ (Error.others, b)
    | some pdev ↦ (Error.ok, record b { world = cz_status_updated pdev.id id val b.world })
  ])

-- The `switch` for a frame that answers no request.
unfoldable pub deal_unsolicited : Buf → ℕ → ℕ → ℕ → ℕ → CzBox → Option (ℕ × CzBox)
deal_unsolicited ptr cmd rlen short_addr end_point b =
    if cmd == cz_device_discover_resp
    then deal_discovered ptr rlen short_addr end_point b
    else if cmd == cz_evt
    then deal_event ptr short_addr b
    else if cmd == cz_status_changed
    then deal_status_changed ptr short_addr b
    else some (Error.ok, b)

-- The rest, for a frame that answers one.
unfoldable pub deal_answer : Buf → ℕ → ℕ → CzBox → Option (ℕ × CzBox)
deal_answer buf len trans_id b =
    let copied : Option (ℕ × CzBox) = do
      r ← memcpy b.ctl.recv_buf buf len
      some (Error.ok, record b { ctl = record (b.ctl) { recv_buf = r; recv_len = len } })
    in if not (trans_id == b.ctl.trans_id)
      then some (Error.others, b)
      else if not b.ctl.is_waiting
      then some (Error.others, b)
      else copied

unfoldable pub deal_recv_buf : Buf → ℕ → CzBox → Option (ℕ × CzBox)
deal_recv_buf buf len b = do
  short_addr ← get_u16 buf 6
  end_point ← get_u16 buf 8
  trans_id ← get_u16 buf 10
  cmd ← get_u16 (advance cz_header_len buf) 0
  rlen ← get_u16 (advance cz_header_len buf) 2
  if 0 == trans_id
      then deal_unsolicited (advance cz_header_len buf) cmd rlen short_addr end_point b
      else deal_answer buf len trans_id b

-- The array after `n` bytes have been read to the place `off` on.
unfoldable pub read_into : Buf → ℕ → (ℕ → ℕ) → ℕ → Option Buf
read_into buf off body n =
    if leb (off + n) buf.size
    then some (record buf {
      byte = λ i. if leb off i && ltb i (off + n) then body (i - off) else buf.byte i;
    })
    else none

-- One frame: `rbuf` after the first read gave `nread` bytes; the second read gives the `ret` bytes of
-- `body`. A read that fails counts as one of no bytes, which the tests make no difference between.
unfoldable pub monitor_frame : Buf → ℕ → (ℕ → ℕ) → ℕ → CzBox → Option CzBox
monitor_frame rbuf nread body ret b =
    let received : Option CzBox = do
      magic ← get_u16 rbuf 0
      cmd_len ← get_u16 rbuf 2
      let second : Option CzBox = do
        r ← read_into rbuf nread body ret
        if ltb ret (cmd_len - cz_header_len)
            then some b
            else (deal_recv_buf r cmd_len b >>= (λ d. some d.1))
      if not (magic == cz_header_magic) || leb cmd_len cz_header_len then some b else second
    in if ltb nread cz_header_len then some b else received
