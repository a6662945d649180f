-- ===== src/Device/Event.antt =====
-- Events of core_daemon/device.c: linkages (`check_linkage`), the hand-over to the clients
-- (`notify_resp` of core_daemon/network.c) and the work mode of the box.
pub mod Laws
pub mod Mem
use hsbsw.Prelude.{
  ℕ, suc, ◌+◌, Bool, true, false, not, List, [], ◌∷◌, ◌++◌, Option, none, some, ◌&&◌, ◌||◌, ◌==◌,
  if◌then◌else◌, check_bit, get_or,
}
use hsbsw.Codes.Error
use hsbsw.Codes.WorkMode
use hsbsw.Codes.EvtType
use hsbsw.Device.Types.{
  Action, Evt, Status, Resp, RespBody, event, Linkage, LinkageStatus, AsyncCtl, DeviceCb, Client,
  World,
}
use hsbsw.Device.Find.{find_dev}
use hsbsw.Device.Async.{set_dev_action_async, set_dev_status_async}

-- A `reply` pointer against the address of context `cnt`.
abbrev pub is_reply_of : Option ℕ → ℕ → Bool
is_reply_of none cnt = false
is_reply_of (some r) cnt = r == cnt

abbrev pub is_event : RespBody → Bool
is_event (event evt) = true
is_event body = false

-- The guards of the `continue`s of `notify_resp`: is the response for context `cnt`?
abbrev pub is_addressee : Resp → ℕ → Client → Bool
is_addressee msg cnt pctx = pctx.using && (is_event msg.body || is_reply_of msg.reply cnt)

-- A copy of the response to the end of the context's queue, and a datagram to its listen path.
abbrev pub deliver : Resp → Client → Client
deliver msg pctx = record pctx { queue = pctx.queue ++ (msg ∷ []); notified = pctx.notified + 1 }

-- The loop of `notify_resp` from context `cnt` on; `mem` says whether the copy gets its memory.
unfoldable pub notify_from : Bool → Resp → ℕ → List Client → List Client
notify_from mem msg cnt [] = []
notify_from mem msg cnt (pctx ∷ rest) =
    (if is_addressee msg cnt pctx && mem then deliver msg pctx else pctx)
    ∷ notify_from mem msg (suc cnt) rest

unfoldable pub notify_resp : Resp → World → World
unfolding notify_from
notify_resp msg w = record w { pool = notify_from w.cb.async.mem msg 0 w.pool }

-- What a linkage that applies asks for: an action if bit 0 of the flag is set, else a status.
unfoldable pub link_act : Linkage → AsyncCtl → AsyncCtl
link_act link c =
    if check_bit link.flag 0
    then (set_dev_action_async action none c).1
    else (set_dev_status_async stat none c).1
  where
    action : Action
    action = record {
      devid = link.act_devid;
      id = link.act_id;
      param1 = link.act_param1;
      param2 = link.act_param2;
    }

    stat : Status
    stat = record {
      devid = link.act_devid;
      num = 1;
      id = link.act_id ∷ [];
      val = link.act_param1 ∷ [];
    }

-- The guards of the loop of `check_linkage`.
unfoldable pub link_applies : ℕ → Evt → Linkage → LinkageStatus → Bool
link_applies work_mode evt link status =
    status.active
    && check_bit link.work_mode work_mode
    && (evt.id == link.evt_id)
    && (evt.param1 == link.evt_param1)
    && (evt.param2 == link.evt_param2)

unfoldable pub link_loop : ℕ → Evt → List Linkage → List LinkageStatus → AsyncCtl → AsyncCtl
unfolding link_act link_applies
link_loop work_mode evt [] statuses c = c
link_loop work_mode evt (link ∷ links) [] c = c
link_loop work_mode evt (link ∷ links) (status ∷ statuses) c =
    link_loop work_mode evt links statuses
      (if link_applies work_mode evt link status then link_act link c else c)

unfoldable pub check_linkage : ℕ → Evt → DeviceCb → ℕ × DeviceCb
unfolding link_loop find_dev
check_linkage devid evt cb = elim (find_dev cb.queue devid) [
  | none ↦ (Error.others, cb)
  | some pdev ↦
      if check_bit pdev.work_mode cb.work_mode
      then (
        Error.ok,
        record cb { async = link_loop cb.work_mode evt pdev.link pdev.link_status cb.async },
      )
      else (Error.others, cb)
]

-- `_dev_event`
unfoldable pub dev_event : ℕ → ℕ → ℕ → ℕ → World → World
unfolding check_linkage notify_resp
dev_event devid type param1 param2 w =
    notify_resp (record { body = event evt; reply = none })
      (record w { cb = (check_linkage devid evt w.cb).1 })
  where
    evt : Evt
    evt = record { devid = devid; id = type; param1 = param1; param2 = param2 }

unfoldable pub dev_status_updated : ℕ → Status → World → World
unfolding dev_event
dev_status_updated devid status =
    dev_event devid EvtType.status_updated (get_or status.id 0 0) (get_or status.val 0 0)

unfoldable pub dev_updated : ℕ → ℕ → World → World
unfolding dev_event
dev_updated devid type = dev_event devid EvtType.dev_updated type 0

unfoldable pub dev_sensor_triggered : ℕ → ℕ → World → World
unfolding dev_event
dev_sensor_triggered devid type = dev_event devid EvtType.sensor_triggered type 0

unfoldable pub dev_sensor_recovered : ℕ → ℕ → World → World
unfolding dev_event
dev_sensor_recovered devid type = dev_event devid EvtType.sensor_recovered type 0

unfoldable pub dev_ir_key : ℕ → ℕ → ℕ → World → World
unfolding dev_event
dev_ir_key devid param1 param2 = dev_event devid EvtType.ir_key param1 param2

unfoldable pub dev_mode_changed : ℕ → World → World
unfolding dev_event
dev_mode_changed mode = dev_event 0 EvtType.mode_changed mode 0

unfoldable pub set_box_work_mode : ℕ → World → ℕ × World
unfolding dev_mode_changed
set_box_work_mode mode w =
    if not (WorkMode.valid mode)
    then (Error.bad_param, w)
    else (Error.ok, dev_mode_changed mode (record w { cb = record (w.cb) { work_mode = mode } }))

-- `get_box_work_mode`
unfoldable pub get_box_work_mode : World → ℕ
get_box_work_mode w = w.cb.work_mode
