-- ===== src/Device/Event/Mem.antt =====
-- The events of core_daemon/device.c and the allocator.
use hsbsw.Prelude.{
  ℕ, Bool, true, false, ◌≡◌, refl, ◌∙◌, arith, List, [], ◌∷◌, Option-cases, inl, inr, if◌then◌else◌,
}
use hsbsw.Codes.EvtType
use hsbsw.Device.Types.{Evt, Linkage, LinkageStatus, AsyncCtl, DeviceCb, World}
use hsbsw.Device.Find.{find_dev}
use hsbsw.Device.Async.{
  push_act, thread_control_push_data, set_dev_action_async, set_dev_status_async,
}
use hsbsw.Device.Event.{
  link_act, link_applies, link_loop, check_linkage, notify_resp, dev_event, dev_updated,
}

link_act-mem : (link : Linkage) (c : AsyncCtl) → (link_act link c).mem ≡ c.mem
unfolding link_act set_dev_action_async set_dev_status_async push_act thread_control_push_data
link_act-mem link c = ground arith

either-mem :
    (applies : Bool) (link : Linkage) (c : AsyncCtl)
    → (if applies then link_act link c else c).mem ≡ c.mem
either-mem true link c = link_act-mem link c
either-mem false link c = refl

link_loop-mem :
    (mode : ℕ) (evt : Evt) (links : List Linkage) (statuses : List LinkageStatus) (c : AsyncCtl)
    → (link_loop mode evt links statuses c).mem ≡ c.mem
unfolding link_loop
link_loop-mem mode evt [] statuses c = refl
link_loop-mem mode evt (link ∷ links) [] c = refl
link_loop-mem mode evt (link ∷ links) (status ∷ statuses) c =
    link_loop-mem mode evt links statuses
      (if link_applies mode evt link status then link_act link c else c)
    ∙ either-mem (link_applies mode evt link status) link c

check_linkage-mem :
    (devid : ℕ) (evt : Evt) (cb : DeviceCb)
    → (check_linkage devid evt cb).1.async.mem ≡ cb.async.mem
unfolding check_linkage
check_linkage-mem devid evt cb = elim (Option-cases (find_dev cb.queue devid)) [
  | inl n ↦ ground (arith, n)
  | inr (d, f) ↦ ground (arith, f, link_loop-mem cb.work_mode evt d.link d.link_status cb.async)
]

pub dev_updated-mem :
    (devid type : ℕ) (w : World) → (dev_updated devid type w).cb.async.mem ≡ w.cb.async.mem
unfolding dev_updated dev_event notify_resp
dev_updated-mem devid type w =
    check_linkage-mem devid
      (record { devid = devid; id = EvtType.dev_updated; param1 = type; param2 = 0 }) w.cb
