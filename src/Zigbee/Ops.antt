-- ===== src/Zigbee/Ops.antt =====
-- Requests to a ZigBee device: `cz_probe`, `sample_set_status`, `sample_get_status` and
-- `sample_set_action` of core_daemon/driver_cg_zigbee.c.
use hsbsw.Prelude.{
  ℕ, zero, suc, ◌+◌, ◌*◌, ◌%◌, ◌^◌, Bool, true, false, List, ◌∷◌, Option, none, some, ◌==◌, ltb,
  leb, not, ◌||◌, ◌&&◌, if◌then◌else◌,
}
use hsbsw.Codes.Error
use hsbsw.Device.Types.{Status, Action}
use hsbsw.Network.Field.{Buf, ◌>>=◌, get_u16, set_u16, set_u32, advance}
use hsbsw.Switch.Ops.{read_entries}
use hsbsw.Zigbee.{CzCtl, CzDev, CzBox, cz_header_magic, cz_header_len, cz_default_ep, cz_find_by_id}

abbrev pub cz_device_discover : ℕ
cz_device_discover = 0x9101

abbrev pub cz_get_status : ℕ
cz_get_status = 0x9111

abbrev pub cz_get_status_resp : ℕ
cz_get_status_resp = 0x9112

abbrev pub cz_set_status : ℕ
cz_set_status = 0x9113

abbrev pub cz_do_action : ℕ
cz_do_action = 0x9131

abbrev pub cz_result : ℕ
cz_result = 0x9191

abbrev pub cz_pkt_type_uc : ℕ
cz_pkt_type_uc = 0

abbrev pub cz_pkt_type_bc : ℕ
cz_pkt_type_bc = 1

-- `memcpy(dest, src, n)`; `none` is an access out of one of the arrays.
unfoldable pub memcpy : Buf → Buf → ℕ → Option Buf
memcpy dest src n =
    if leb n dest.size && leb n src.size
    then some (record dest { byte = λ i. if ltb i n then src.byte i else dest.byte i })
    else none

-- The header and the first fields of a command of `len` bytes.
unfoldable pub put_header : ℕ → ℕ → ℕ → ℕ → ℕ → ℕ → Buf → Option Buf
unfolding set_u16
put_header cmd len type short_addr end_point trans_id wbuf = do
  b ← set_u16 wbuf 0 cz_header_magic
  b ← set_u16 b 2 (len + cz_header_len)
  b ← set_u16 b 4 type
  b ← set_u16 b 6 short_addr
  b ← set_u16 b 8 end_point
  b ← set_u16 b 10 trans_id
  b ← set_u16 b 12 cmd
  set_u16 b 14 len

-- The frame goes to the buffer from which the monitor thread writes it to the line.
unfoldable pub post : Buf → ℕ → CzCtl → Option CzCtl
post wbuf n c = do s ← memcpy c.send_buf wbuf n; some (record c { send_buf = s; send_len = n })

-- `is_waiting = FALSE; trans_id++` at the end of every request
abbrev pub finish : CzBox → CzBox
finish b = record b {
  ctl = record (b.ctl) { is_waiting = false; trans_id = (b.ctl.trans_id + 1) % 2 ^ 16 };
}

-- The loop over the entries of a SET_STATUS request, `num` of them from `id` on.
unfoldable pub cz_put_entries : ℕ → ℕ → List ℕ → List ℕ → Buf → Option Buf
cz_put_entries zero id ids vals buf = some buf
cz_put_entries (suc num) id (i ∷ ids) (v ∷ vals) buf = do
  b ← set_u16 buf (cz_header_len + (4 + id * 4)) i
  b ← set_u16 b (cz_header_len + (6 + id * 4)) v
  cz_put_entries num (suc id) ids vals b
cz_put_entries (suc num) id ids vals buf = none

-- What SET_STATUS and DO_ACTION make of the answer in `recv_buf`.
unfoldable pub cz_check_result : CzCtl → Option ℕ
cz_check_result c = do
  cmd ← get_u16 (advance cz_header_len c.recv_buf) 0
  rlen ← get_u16 (advance cz_header_len c.recv_buf) 2
  result ← get_u16 (advance cz_header_len c.recv_buf) 4
  some (
      if not (cmd == cz_result) || not (rlen + cz_header_len == c.recv_len)
      then Error.invalid_msg
      else if result == 0
      then Error.act_failed
      else Error.ok)

-- What GET_STATUS makes of it.
unfoldable pub cz_get_answer : Status → CzCtl → Option (ℕ × Status)
cz_get_answer st c = do
  let ptr = advance cz_header_len c.recv_buf
  cmd ← get_u16 ptr 0
  rlen ← get_u16 ptr 2
  let entries : Option (ℕ × Status) = do
    r ← read_entries rlen st.num rlen 0 4 ptr st.id st.val
    some (Error.ok, record st { num = r.0; id = r.1; val = r.2 })
  if not (cmd == cz_get_status_resp) || not (rlen + cz_header_len == c.recv_len)
      then some (Error.invalid_msg, st)
      else entries

-- `wait` is what happens while a request waits on its condition, from the state then to the state when
-- it goes on, with whether its time is up.
module _ (wait : CzBox → Bool × CzBox) where
  -- A request from its lock on: the frame of `len` bytes behind its header is posted, and what is made
  -- of the answer is `f`; `late` is the result when the time is up.
  unfoldable pub exchange {ℓ} :
      {A : Type ℓ} → A → (CzCtl → Option A) → Buf → ℕ → CzBox → Option (A × CzBox)
  exchange late f w n b = do
    c ← post w n (record (b.ctl) { is_waiting = true })
    let (timed_out, woken) = wait (record b { ctl = c })
    a ← if timed_out then some late else f woken.ctl
    some (a, finish woken)

-- `stack` is what the uninitialised `wbuf` holds.
module _ (stack : ℕ → ℕ) where
  abbrev pub wbuf : Buf
  wbuf = record { size = 64; byte = stack }

  unfoldable pub cz_probe : CzBox → Option CzBox
  cz_probe b = do
    w ← put_header cz_device_discover 8 cz_pkt_type_bc 0xffff cz_default_ep 0 wbuf
    c ← post w 20 (record (b.ctl) { is_waiting = false })
    some (record b { ctl = c })

  -- The frame of a DO_ACTION request.
  unfoldable pub action_frame : Action → CzDev → ℕ → Option Buf
  unfolding put_header set_u16 set_u32
  action_frame act pdev trans_id = do
    w ← put_header cz_do_action 12 cz_pkt_type_uc pdev.short_addr pdev.end_point trans_id wbuf
    w ← set_u16 w 16 act.id
    w ← set_u16 w 18 act.param1
    set_u32 w 20 act.param2

  module _ (wait : CzBox → Bool × CzBox) where
    unfoldable pub sample_set_status : Status → CzBox → Option (ℕ × CzBox)
    sample_set_status st b = elim (cz_find_by_id b.queue st.devid) [
      | none ↦ some (Error.entry_not_found, b)
      | some pdev ↦ do
        let len = (4 + 4 * st.num) % 2 ^ 32
        w ←
            put_header cz_set_status len cz_pkt_type_uc pdev.short_addr pdev.end_point
              b.ctl.trans_id wbuf
        w ← cz_put_entries st.num 0 st.id st.val w
        exchange wait Error.others cz_check_result w ((len + cz_header_len) % 2 ^ 32) b
    ]

    unfoldable pub sample_get_status : Status → CzBox → Option ((ℕ × Status) × CzBox)
    sample_get_status st b = elim (cz_find_by_id b.queue st.devid) [
      | none ↦ some ((Error.entry_not_found, st), b)
      | some pdev ↦ do
        w ←
            put_header cz_get_status 8 cz_pkt_type_uc pdev.short_addr pdev.end_point b.ctl.trans_id
              wbuf
        w ← set_u32 w 16 0xffff_ffff
        exchange wait (Error.others, st) (cz_get_answer st) w 20 b
    ]

    unfoldable pub sample_set_action : Action → CzBox → Option (ℕ × CzBox)
    sample_set_action act b = elim (cz_find_by_id b.queue act.devid) [
      | none ↦ some (Error.entry_not_found, b)
      | some pdev ↦ do
        w ← action_frame act pdev b.ctl.trans_id
        exchange wait Error.others cz_check_result w 24 b
    ]
