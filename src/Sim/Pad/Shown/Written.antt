-- ===== src/Sim/Pad/Shown/Written.antt =====
-- What core_daemon/network.c writes to a client, and what misc/pad_sim.c is to show of it.
use hsbsw.Prelude.{ℕ, ◌%◌, ◌^◌, ◌≤◌, ◌<◌, ◌≡◌, List, Option, none, some, length, take, All}
use hsbsw.Device.Types.{Timer, Delay, Linkage, Dev, Drv, RespBody, result, event, status}
use hsbsw.Network.Field.{Buf, zero_buf}
use hsbsw.Network.Reply.{
  reply_result, reply_dev_id_list, reply_get_device_info, reply_get_timer, reply_get_delay,
  reply_get_linkage, make_notify_resp,
}
use hsbsw.Network.RoundTrip.{FitsTimer, FitsDelay, FitsLinkage}
use hsbsw.Sim.Pad.Shown.{
  Shown, ids, dev_identity, dev_status, dev_timer, dev_delay, dev_linkage, dev_evt, call_result,
}
use hsbsw.Sim.Pad.Shown.Lists.{entries}

-- What the box writes to a client.
pub data Reply : Type 0 where
  dev_ids : List ℕ → Reply
  device_info : Dev → Reply
  timer : ℕ → Timer → Reply
  delay : ℕ → Delay → Reply
  linkage : ℕ → Linkage → Reply
  outcome : ℕ → Reply
  notification : RespBody → Reply

-- The function that writes it.
abbrev pub sent : Reply → Option (Buf × ℕ)
sent (dev_ids ds) = reply_dev_id_list ds (zero_buf 1024)
sent (device_info dev) = reply_get_device_info dev (zero_buf 1024)
sent (timer dev_id tm) = reply_get_timer dev_id tm (zero_buf 1024)
sent (delay dev_id d) = reply_get_delay dev_id d (zero_buf 1024)
sent (linkage dev_id link) = reply_get_linkage dev_id link (zero_buf 1024)
sent (outcome ret) = reply_result ret (zero_buf 1024)
sent (notification body) = make_notify_resp body (zero_buf 64)

-- What it is about.
abbrev pub about : Reply → Shown
about (dev_ids ds) = ids ds
about (device_info dev) =
    dev_identity dev.id (elim dev.driver [ none ↦ 0 | some d ↦ d.id ]) dev.info.cls
      dev.info.interface (take 6 dev.info.mac)
about (timer dev_id tm) = dev_timer dev_id tm
about (delay dev_id d) = dev_delay dev_id d
about (linkage dev_id link) = dev_linkage dev_id link
about (outcome ret) = call_result (ret % 2 ^ 16)
about (notification (result ret)) = call_result ret
about (notification (event evt)) = dev_evt evt
about (notification (status st)) = dev_status st.devid (entries st.num st.id st.val)

-- Its numbers fit their fields, and there are no more ids and statuses than their arrays hold.
abbrev pub FitsReply : Reply → Type 0
FitsReply (dev_ids ds) = (length ds ≤ 128) × All (λ d. d < 2 ^ 32) ds
FitsReply (device_info dev) =
    (dev.id < 2 ^ 32)
    × ((d : Drv) × (dev.driver ≡ some d) × (d.id < 2 ^ 32))
    × (dev.info.cls < 2 ^ 16)
    × (dev.info.interface < 2 ^ 16)
    × (6 ≤ length dev.info.mac)
    × All (λ b. b < 2 ^ 8) dev.info.mac
FitsReply (timer dev_id tm) = (dev_id < 2 ^ 32) × FitsTimer tm
FitsReply (delay dev_id d) = (dev_id < 2 ^ 32) × FitsDelay d
FitsReply (linkage dev_id link) = (dev_id < 2 ^ 32) × FitsLinkage link
FitsReply (outcome ret) = Unit
FitsReply (notification (result ret)) = ret < 2 ^ 16
FitsReply (notification (event evt)) =
    (evt.devid < 2 ^ 32) × (evt.id < 2 ^ 16) × (evt.param1 < 2 ^ 16) × (evt.param2 < 2 ^ 32)
FitsReply (notification (status st)) =
    (st.devid < 2 ^ 32)
    × (st.num ≤ 8)
    × (st.num ≤ length st.id)
    × (st.num ≤ length st.val)
    × All (λ i. i < 2 ^ 16) st.id
    × All (λ v. v < 2 ^ 16) st.val
