-- ===== src/Network/Request.antt =====
-- The requests of core_daemon/network.c: `check_tcp_pkt_valid`, and one function for each group of
-- cases of `deal_tcp_packet`. The reply buffer has 1024 zero bytes.
use hsbsw.Prelude.{
  ℕ, zero, suc, ◌+◌, ◌-◌, ◌*◌, ◌/◌, ◌%◌, ◌^◌, Option, none, some, ◌==◌, ltb, not, if◌then◌else◌,
  length, set, replicate,
}
use hsbsw.Codes.Error
use hsbsw.Codes.Cmd
use hsbsw.Codes.{minus_one, act_type_remote_control}
use hsbsw.Device.Types.{Status, World, AsyncCtl}
use hsbsw.Device.Find.{find_dev, get_dev_id_list}
use hsbsw.Device.Async.{
  probe_dev_async, set_dev_status_async, get_dev_status_async, set_dev_action_async,
}
use hsbsw.Remote.{remote_key_mapping}
use hsbsw.Network.Field.{Buf, ◌>>=◌, get_u16, get_u32, zero_buf}
use hsbsw.Network.Reply.{reply_result, reply_dev_id_list, reply_get_device_info}

-- What a request leaves: the bytes to write to the client with their number (0: none), and the
-- state.
pub record Answer : Type 0 where
  pub reply : Buf
  pub rlen : ℕ
  pub world : World

abbrev pub reply_buf : Buf
reply_buf = zero_buf 1024

-- The answer that `_reply_…` wrote.
abbrev pub answer : World → Option (Buf × ℕ) → Option Answer
answer w none = none
answer w (some (b, rlen)) = some (record { reply = b; rlen = rlen; world = w })

-- No bytes now: the worker thread answers.
abbrev pub answer_later : World → ℕ × AsyncCtl → Option Answer
answer_later w (ret, async) = some (record {
  reply = reply_buf;
  rlen = 0;
  world = record w { cb = record (w.cb) { async = async } };
})

-- `check_tcp_pkt_valid` for a buffer that is not NULL: 0, or the pattern of -1, -2 or -3.
unfoldable pub check_tcp_pkt_valid : Buf → ℕ → Option ℕ
unfolding get_u16
check_tcp_pkt_valid buf len =
    let checked : Option ℕ = do
      command ← get_u16 buf 0
      size ← get_u16 buf 2
      some (
          if not (Cmd.valid command)
          then minus_one - 1
          else if ltb len size
          then minus_one - 2
          else 0)
    in if len == 0 then some minus_one else checked

-- HSB_CMD_GET_DEVS: `dev_id` has 128 entries, and a write past them is a fault.
unfoldable pub deal_get_devs : World → Option Answer
unfolding get_dev_id_list reply_dev_id_list
deal_get_devs w =
    let dev_id = get_dev_id_list w.cb.queue in
    if ltb 128 (length dev_id) then none else answer w (reply_dev_id_list dev_id reply_buf)

-- HSB_CMD_GET_INFO with `get_dev_info`, whose failure is -1
unfoldable pub deal_get_info : Buf → World → Option Answer
unfolding get_u32 find_dev reply_result reply_get_device_info
deal_get_info buf w = do
  dev_id ← get_u32 buf 4
  elim (find_dev w.cb.queue dev_id) [
    | none ↦ answer w (reply_result minus_one reply_buf)
    | some dev ↦ answer w (reply_get_device_info dev reply_buf)
  ]

-- HSB_CMD_GET_STATUS
unfoldable pub deal_get_status : Buf → Option ℕ → World → Option Answer
unfolding get_u32 get_dev_status_async
deal_get_status buf reply w = do
  dev_id ← get_u32 buf 4
  answer_later w (get_dev_status_async dev_id reply w.cb.async)

-- The loop of `_get_dev_status`: `n` entries from `id` on.
unfoldable pub read_status : ℕ → ℕ → Buf → Status → Option Status
unfolding get_u16
read_status zero id buf st = some st
read_status (suc n) id buf st = do
  i ← get_u16 buf (8 + id * 4)
  v ← get_u16 buf (10 + id * 4)
  read_status n (suc id) buf (record st { id = set st.id id i; val = set st.val id v })

-- The number of entries that `_get_dev_status` reads, at most the eight of the arrays.
unfoldable pub status_total : ℕ → ℕ
status_total len = let total = (len - 8) / 4 in if ltb 8 total then 8 else total

-- `status->num = total`: for a packet of fewer than 8 bytes `(len - 8) / 4` is the quotient of
-- negative `int`s, rounded to zero, and the uint32_t is its pattern.
unfoldable pub status_num : ℕ → ℕ
unfolding status_total
status_num len = if ltb len 8 then (2 ^ 32 - (8 - len) / 4) % 2 ^ 32 else status_total len

-- `_get_dev_status`
unfoldable pub get_dev_status : Buf → ℕ → Status → Option Status
get_dev_status buf len st = do
  st' ← read_status (status_total len) 0 buf st
  some (record st' { num = status_num len })

-- HSB_CMD_SET_STATUS
unfoldable pub deal_set_status : Buf → ℕ → Option ℕ → World → Option Answer
unfolding get_u32 set_dev_status_async
deal_set_status buf len reply w = do
  dev_id ← get_u32 buf 4
  st ←
      get_dev_status buf len
        (record { devid = dev_id; num = 0; id = replicate 8 0; val = replicate 8 0 })
  answer_later w (set_dev_status_async st reply w.cb.async)

-- The key of a remote control is mapped; any other action is passed on as it is.
unfoldable pub deal_do_action : Buf → Option ℕ → World → Option Answer
unfolding get_u16 get_u32 remote_key_mapping reply_result set_dev_action_async
deal_do_action buf reply w = do
  dev_id ← get_u32 buf 4
  act_id ← get_u16 buf 8
  param1 ← get_u16 buf 10
  param2 ← get_u32 buf 12
  let mapped =
      remote_key_mapping param1 param2 (record { devid = dev_id; id = 0; param1 = 0; param2 = 0 })
  if act_id == act_type_remote_control
      then (if mapped.0 == Error.ok
          then answer_later w (set_dev_action_async mapped.1 reply w.cb.async)
          else answer w (reply_result mapped.0 reply_buf))
      else answer_later w (
          set_dev_action_async
            (record { devid = dev_id; id = act_id; param1 = param1; param2 = param2 }) reply
            w.cb.async)

-- HSB_CMD_PROBE_DEV
unfoldable pub deal_probe_dev : Buf → Option ℕ → World → Option Answer
unfolding get_u16 probe_dev_async
deal_probe_dev buf reply w = do
  type ← get_u16 buf 4
  answer_later w (probe_dev_async type reply w.cb.async)
