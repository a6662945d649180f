-- ===== src/Switch/Ops.antt =====
-- The operations of a virtual switch: `virtual_switch_get_status`, `virtual_switch_set_status` and
-- `virtual_switch_set_action` of core_daemon/driver_virtual_switch.c.
use hsbsw.Prelude.{
  ℕ, zero, suc, ◌+◌, ◌*◌, ◌%◌, ◌^◌, List, ◌∷◌, Option, none, some, ◌==◌, leb, ltb, not, ◌||◌,
  if◌then◌else◌, set, length,
}
use hsbsw.Codes.Error
use hsbsw.Device.Types.{Status, Action}
use hsbsw.Network.Field.{Buf, ◌>>=◌, get_u16, set_u16, set_u32, zero_buf}
use hsbsw.Switch.{VsDev, vs_find_by_id}

abbrev pub vs_get_status : ℕ
vs_get_status = 0x8921

abbrev pub vs_get_status_resp : ℕ
vs_get_status_resp = 0x8922

abbrev pub vs_set_status : ℕ
vs_set_status = 0x8923

abbrev pub vs_do_action : ℕ
vs_do_action = 0x8941

abbrev pub vs_result : ℕ
vs_result = 0x89a1

-- The loop over the entries of the request, `num` of them from `id` on.
unfoldable pub put_entries : ℕ → ℕ → List ℕ → List ℕ → Buf → Option Buf
put_entries zero id ids vals buf = some buf
put_entries (suc num) id (i ∷ ids) (v ∷ vals) buf = do
  b ← set_u16 buf (4 + id * 4) i
  b ← set_u16 b (6 + id * 4) v
  put_entries num (suc id) ids vals b
put_entries (suc num) id ids vals buf = none

-- What a SET_STATUS or DO_ACTION exchange makes of the answer of `ret` bytes.
unfoldable pub check_result : Buf → ℕ → Option ℕ
check_result rbuf ret = do
  cmd ← get_u16 rbuf 0
  rlen ← get_u16 rbuf 2
  result ← get_u16 rbuf 4
  some (
      if not (cmd == vs_result) || not (rlen == ret)
      then Error.invalid_msg
      else if result == 0
      then Error.act_failed
      else Error.ok)

-- `while (len + 4 <= rlen)`: what is read into the two arrays of the status from `len` on, and the
-- number of entries. `none` is an access out of an array. The fuel counts the entries left.
unfoldable pub read_entries :
    ℕ → ℕ → ℕ → ℕ → ℕ → Buf → List ℕ → List ℕ → Option (ℕ × List ℕ × List ℕ)
read_entries zero num rlen status_num len rbuf ids vals = some (status_num, ids, vals)
read_entries (suc fuel) num rlen status_num len rbuf ids vals =
    let entry : Option (ℕ × List ℕ × List ℕ) = do
      i ← get_u16 rbuf len
      v ← get_u16 rbuf (len + 2)
      let rest =
          read_entries fuel num rlen (status_num + 1) (len + 4) rbuf (set ids status_num i)
            (set vals status_num v)
      if leb (length ids) status_num
          then none
          else if leb num (status_num + 1)
          then some (status_num + 1, set ids status_num i, set vals status_num v)
          else rest
    in if leb (len + 4) rlen then entry else some (status_num, ids, vals)

-- What `virtual_switch_get_status` makes of the exchange: INVALID_MSG for a failure or for less than
-- MIN_VS_CMD_LEN bytes, or the status with the entries that are read.
unfoldable pub get_answer : Status → Option (Buf × ℕ) → Option (ℕ × Status)
get_answer st none = some (Error.invalid_msg, st)
get_answer st (some (rbuf, ret)) =
    let checked : Option (ℕ × Status) = do
      cmd ← get_u16 rbuf 0
      rlen ← get_u16 rbuf 2
      let entries : Option (ℕ × Status) = do
        r ← read_entries rlen st.num rlen 0 4 rbuf st.id st.val
        some (Error.ok, record st { num = r.0; id = r.1; val = r.2 })
      if not (cmd == vs_get_status_resp) || not (ret == rlen)
          then some (Error.invalid_msg, st)
          else entries
    in if ltb ret 2 then some (Error.invalid_msg, st) else checked

-- The result of the exchange: INVALID_MSG for a failure or for less than MIN_VS_CMD_LEN bytes.
unfoldable pub answered : Option (Buf × ℕ) → (Buf → ℕ → Option ℕ) → Option ℕ
answered none f = some Error.invalid_msg
answered (some (rbuf, ret)) f = if ltb ret 2 then some Error.invalid_msg else f rbuf ret

-- `_transfer` is the exchange with the device: from its address and the bytes sent, with their number,
-- to the answer in the 64 bytes of `rbuf`, with its length, or `none` for a failure.
module _ (transfer : ℕ → Buf → ℕ → Option (Buf × ℕ)) where
  unfoldable pub virtual_switch_set_status : List VsDev → Status → Option ℕ
  virtual_switch_set_status q st = elim (vs_find_by_id q st.devid) [
    | none ↦ some Error.entry_not_found
    | some pdev ↦ do
      let len = (4 + 4 * st.num) % 2 ^ 32
      b ← set_u16 (zero_buf 64) 0 vs_set_status
      b ← set_u16 b 2 len
      b ← put_entries st.num 0 st.id st.val b
      answered (transfer pdev.ip b len) check_result
  ]

  unfoldable pub virtual_switch_set_action : List VsDev → Action → Option ℕ
  virtual_switch_set_action q act = elim (vs_find_by_id q act.devid) [
    | none ↦ some Error.entry_not_found
    | some pdev ↦ do
      b ← set_u16 (zero_buf 64) 0 vs_do_action
      b ← set_u16 b 2 12
      b ← set_u16 b 4 act.id
      b ← set_u16 b 6 act.param1
      b ← set_u32 b 8 act.param2
      answered (transfer pdev.ip b 12) check_result
  ]

  unfoldable pub virtual_switch_get_status : List VsDev → Status → Option (ℕ × Status)
  virtual_switch_get_status q st = elim (vs_find_by_id q st.devid) [
    | none ↦ some (Error.entry_not_found, st)
    | some pdev ↦ do
      b ← set_u16 (zero_buf 64) 0 vs_get_status
      b ← set_u16 b 2 8
      b ← set_u32 b 4 0xffff_ffff
      get_answer st (transfer pdev.ip b 8)
  ]
