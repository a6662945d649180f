-- ===== src/Network/Reply.antt =====
-- The replies of core_daemon/network.c. Each writes its packet into the buffer and gives the
-- length; `none` is a write out of the buffer, or a read through a NULL driver.
use hsbsw.Prelude.{ℕ, zero, suc, ◌+◌, ◌*◌, List, [], ◌∷◌, Option, none, some, length, ◌%◌, ◌^◌}
use hsbsw.Codes.Cmd
use hsbsw.Device.Types.{Timer, Delay, Linkage, Dev, RespBody, result, event, status}
use hsbsw.Network.Field.{Buf, ◌>>=◌, set_u8, set_u16, set_u32, make_cmd_hdr}

unfoldable pub reply_result : ℕ → Buf → Option (Buf × ℕ)
unfolding set_u16 make_cmd_hdr
reply_result ret buf = do b ← make_cmd_hdr Cmd.result 8 buf; b ← set_u16 b 4 ret; some (b, 8)

-- The loop over `dev_id`, from entry `id` on.
unfoldable pub put_ids : ℕ → List ℕ → Buf → Option Buf
unfolding set_u32
put_ids id [] buf = some buf
put_ids id (d ∷ ds) buf = set_u32 buf (4 + id * 4) d >>= put_ids (suc id) ds

unfoldable pub reply_dev_id_list : List ℕ → Buf → Option (Buf × ℕ)
reply_dev_id_list dev_id buf = do
  b ← make_cmd_hdr Cmd.get_devs_resp (length dev_id * 4 + 4) buf
  b ← put_ids 0 dev_id b
  some (b, length dev_id * 4 + 4)

-- `memcpy(buf + off, bytes, n)`
unfoldable pub put_bytes : ℕ → ℕ → List ℕ → Buf → Option Buf
unfolding set_u8
put_bytes zero off bytes buf = some buf
put_bytes (suc n) off [] buf = none
put_bytes (suc n) off (b ∷ bytes) buf = set_u8 buf off b >>= put_bytes n (off + 1) bytes

unfoldable pub reply_get_device_info : Dev → Buf → Option (Buf × ℕ)
unfolding make_cmd_hdr set_u16 set_u32 put_bytes
reply_get_device_info dev buf = do
  b ← make_cmd_hdr Cmd.get_info_resp 24 buf
  b ← set_u32 b 4 dev.id
  driver ← dev.driver
  b ← set_u32 b 8 driver.id
  b ← set_u16 b 12 dev.info.cls
  b ← set_u16 b 14 dev.info.interface
  b ← put_bytes 6 16 dev.info.mac b
  some (b, 24)

unfoldable pub reply_get_timer : ℕ → Timer → Buf → Option (Buf × ℕ)
unfolding make_cmd_hdr set_u8 set_u16 set_u32
reply_get_timer dev_id tm buf = do
  b ← make_cmd_hdr Cmd.get_timer_resp 24 buf
  b ← set_u32 b 4 dev_id
  b ← set_u16 b 8 tm.id
  b ← set_u8 b 10 tm.work_mode
  b ← set_u8 b 11 tm.flag
  b ← set_u8 b 12 tm.hour
  b ← set_u8 b 13 tm.min
  b ← set_u8 b 14 tm.sec
  b ← set_u8 b 15 tm.wday
  b ← set_u16 b 16 tm.act_id
  b ← set_u16 b 18 tm.act_param1
  b ← set_u32 b 20 tm.act_param2
  some (b, 24)

unfoldable pub reply_get_delay : ℕ → Delay → Buf → Option (Buf × ℕ)
unfolding make_cmd_hdr set_u8 set_u16 set_u32
reply_get_delay dev_id delay buf = do
  b ← make_cmd_hdr Cmd.get_delay_resp 32 buf
  b ← set_u32 b 4 dev_id
  b ← set_u16 b 8 delay.id
  b ← set_u8 b 10 delay.work_mode
  b ← set_u8 b 11 delay.flag
  b ← set_u16 b 12 delay.evt_id
  b ← set_u16 b 14 delay.evt_param1
  b ← set_u32 b 16 delay.evt_param2
  b ← set_u16 b 20 delay.act_id
  b ← set_u16 b 22 delay.act_param1
  b ← set_u32 b 24 delay.act_param2
  b ← set_u32 b 28 delay.delay_sec
  some (b, 32)

unfoldable pub reply_get_linkage : ℕ → Linkage → Buf → Option (Buf × ℕ)
unfolding make_cmd_hdr set_u8 set_u16 set_u32
reply_get_linkage dev_id link buf = do
  b ← make_cmd_hdr Cmd.get_linkage_resp 32 buf
  b ← set_u32 b 4 dev_id
  b ← set_u16 b 8 link.id
  b ← set_u8 b 10 link.work_mode
  b ← set_u8 b 11 link.flag
  b ← set_u16 b 12 link.evt_id
  b ← set_u16 b 14 link.evt_param1
  b ← set_u32 b 16 link.evt_param2
  b ← set_u32 b 20 link.act_devid
  b ← set_u16 b 24 link.act_id
  b ← set_u16 b 26 link.act_param1
  b ← set_u32 b 28 link.act_param2
  some (b, 32)

-- The loop over the entries of a status, `num` of them from `id` on; a read past an array of the
-- status is a fault, too.
unfoldable pub put_status : ℕ → ℕ → List ℕ → List ℕ → Buf → Option Buf
unfolding set_u16
put_status zero id ids vals buf = some buf
put_status (suc num) id (i ∷ ids) (v ∷ vals) buf = do
  b ← set_u16 buf (8 + 4 * id) i
  b ← set_u16 b (10 + 4 * id) v
  put_status num (suc id) ids vals b
put_status (suc num) id ids vals buf = none

-- `_make_notify_resp`; the `int` length wraps as the uint32_t sum that it is computed from.
unfoldable pub make_notify_resp : RespBody → Buf → Option (Buf × ℕ)
unfolding set_u16 set_u32
make_notify_resp (event evt) buf = do
  b ← make_cmd_hdr Cmd.event 16 buf
  b ← set_u32 b 4 evt.devid
  b ← set_u16 b 8 evt.id
  b ← set_u16 b 10 evt.param1
  b ← set_u32 b 12 evt.param2
  some (b, 16)
make_notify_resp (result ret) buf = do
  b ← make_cmd_hdr Cmd.result 8 buf
  b ← set_u16 b 4 ret
  some (b, 8)
make_notify_resp (status st) buf = do
  let len = (8 + st.num * 4) % 2 ^ 32
  b ← make_cmd_hdr Cmd.get_status_resp len buf
  b ← set_u32 b 4 st.devid
  b ← put_status st.num 0 st.id st.val b
  some (b, len)
