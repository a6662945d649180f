-- ===== src/Device/Process/Order.antt =====
-- The order in which the worker thread of core_daemon/device.c takes the requests.
use mathlib.Core.List.{append-nil}
use hsbsw.Prelude.{
  ℕ, ◌≡◌, refl, ap, sym, arith, true, false, List, [], ◌∷◌, ◌++◌, Option, none, some, ◌&&◌, ◌==◌,
  Bool-cases, Option-cases, inl, inr, get_or,
}
use hsbsw.Codes.WorkMode
use hsbsw.Codes.EvtType
use hsbsw.Codes.{status_type_work_mode}
use hsbsw.Device.Types.{
  Evt, Act, ActBody, probe, set_status, get_status, do_action, Status, Linkage, LinkageStatus,
  AsyncCtl, DeviceCb, World, DrvOpTable,
}
use hsbsw.Device.Find.{find_dev, find_drv}
use hsbsw.Device.Async.{set_dev_action_async, set_dev_status_async}
use hsbsw.Device.Event.{
  link_act, link_loop, check_linkage, dev_event, notify_resp, dev_mode_changed, set_box_work_mode,
}
use hsbsw.Device.Event.Laws.{check_linkage-queue, event_requests}
use hsbsw.Device.Process.{
  Drivers, probe_dev, set_dev_status, set_dev_action, reply_result, process_body, process_dev_act,
  with_queue, process_round,
}

-- The requests of the first list are still there, in their order, ahead of any new ones.
abbrev pub Extends : List Act → List Act → Type 0
Extends q q' = (new : List Act) × (q' ≡ q ++ new)

Extends-refl : (q : List Act) → Extends q q
Extends-refl q = ([], sym (append-nil q))

link_loop_no_mem :
    (mode : ℕ) (evt : Evt) (links : List Linkage) (sts : List LinkageStatus) (c : AsyncCtl)
    → c.mem ≡ false
    → link_loop mode evt links sts c ≡ c
unfolding link_loop link_act set_dev_action_async set_dev_status_async
link_loop_no_mem mode evt [] sts c h = refl
link_loop_no_mem mode evt (link ∷ links) [] c h = refl
link_loop_no_mem mode evt (link ∷ links) (st ∷ sts) c h =
    ground (arith, link_loop_no_mem mode evt links sts c h)

check_linkage-Extends :
    (devid : ℕ) (evt : Evt) (cb : DeviceCb)
    → Extends cb.async.data_queue (check_linkage devid evt cb).1.async.data_queue
unfolding check_linkage
check_linkage-Extends devid evt cb = elim (Bool-cases cb.async.mem) [
  | inl h ↦ (
    event_requests devid evt cb,
    ap (λ (c : DeviceCb). c.async.data_queue) (check_linkage-queue devid evt cb h),
  )
  | inr h ↦ elim (Option-cases (find_dev cb.queue devid)) [
    | inl e ↦ ([], ground (arith, e, append-nil cb.async.data_queue))
    | inr (d, e) ↦ (
      [],
      ground (
        arith,
        e,
        append-nil cb.async.data_queue,
        link_loop_no_mem cb.work_mode evt d.link d.link_status cb.async h,
      ),
    )
  ]
]

dev_event-Extends :
    (devid type param1 param2 : ℕ) (w : World)
    → Extends w.cb.async.data_queue (dev_event devid type param1 param2 w).cb.async.data_queue
unfolding dev_event notify_resp
dev_event-Extends devid type param1 param2 w =
    check_linkage-Extends devid
      (record { devid = devid; id = type; param1 = param1; param2 = param2 }) w.cb

set_box_work_mode-Extends :
    (mode : ℕ) (w : World)
    → Extends w.cb.async.data_queue (set_box_work_mode mode w).1.cb.async.data_queue
unfolding set_box_work_mode dev_mode_changed
set_box_work_mode-Extends mode w = elim (Bool-cases (WorkMode.valid mode)) [
  | inl h ↦
      let w' = record w { cb = record (w.cb) { work_mode = mode } } in
      let (new, e) = dev_event-Extends 0 EvtType.mode_changed mode 0 w' in
      (new, ground (arith, h, e))
  | inr h ↦ ([], ground (arith, h, append-nil w.cb.async.data_queue))
]

module _ (drivers : Drivers)
    (probe_extends : (op : DrvOpTable) (f : World → ℕ × World)
      → drivers.probe op ≡ some f
      → (w : World) → Extends w.cb.async.data_queue (f w).1.cb.async.data_queue) where
  probe_dev-Extends :
      (drvid : ℕ) (w : World)
      → Extends w.cb.async.data_queue (probe_dev drivers drvid w).1.cb.async.data_queue
  unfolding probe_dev
  probe_dev-Extends drvid w = elim (Option-cases (find_drv w.cb.driverq drvid)) [
    | inl e ↦ ([], ground (arith, e, append-nil w.cb.async.data_queue))
    | inr (drv, e) ↦ elim (Option-cases drv.op) [
      | inl e' ↦ ([], ground (arith, e, e', append-nil w.cb.async.data_queue))
      | inr (op, e') ↦ elim (Option-cases (drivers.probe op)) [
        | inl e'' ↦ ([], ground (arith, e, e', e'', append-nil w.cb.async.data_queue))
        | inr (f, e'') ↦
            let (new, g) = probe_extends op f e'' w in (new, ground (arith, e, e', e'', g))
      ]
    ]
  ]

  set_dev_status-Extends :
      (st : Status) (w : World)
      → Extends w.cb.async.data_queue (set_dev_status drivers st w).1.cb.async.data_queue
  unfolding set_dev_status
  set_dev_status-Extends st w =
      let mode = (0 == st.devid) && (get_or st.id 0 0 == status_type_work_mode) in
      elim (Bool-cases mode) [
        | inl h ↦
            let (new, e) = set_box_work_mode-Extends (get_or st.val 0 0) w in
            (new, ground (arith, h, e))
        | inr h ↦ ([], ground (arith, h, append-nil w.cb.async.data_queue))
      ]

  told-Extends :
      (reply : Option ℕ) (ret : ℕ) (w : World) → (reply_result drivers reply ret w).cb ≡ w.cb
  unfolding reply_result notify_resp
  told-Extends none ret w = refl
  told-Extends (some r) ret w = refl

  process_body-Extends :
      (b : ActBody) (reply : Option ℕ) (w : World)
      → Extends w.cb.async.data_queue (process_body drivers b reply w).cb.async.data_queue
  unfolding process_body notify_resp
  process_body-Extends (probe drvid) reply w =
      let (new, e) = probe_dev-Extends drvid w in
      (new, rw (told-Extends reply (probe_dev drivers drvid w).0 (probe_dev drivers drvid w).1) e)
  process_body-Extends (set_status st) reply w =
      let (new, e) = set_dev_status-Extends st w in
      (
        new,
        rw (told-Extends reply (set_dev_status drivers st w).0 (set_dev_status drivers st w).1) e,
      )
  process_body-Extends (get_status st) reply w = Extends-refl w.cb.async.data_queue
  process_body-Extends (do_action act) reply w =
      rw (told-Extends reply (set_dev_action drivers act w) w) (Extends-refl w.cb.async.data_queue)

  -- For drivers whose probe takes no request away: while the thread is active, it takes the oldest
  -- request, and leaves all others in their order, ahead of any that the request itself sets off.
  pub process_round-queue :
      (act : Act) (q : List Act) (w : World)
      → w.cb.async.active ≡ true
      → w.cb.async.data_queue ≡ act ∷ q
      → Extends q (process_round drivers w).cb.async.data_queue
  unfolding process_round process_dev_act
  process_round-queue act q w on e =
      rw (process_round, on, e) (process_body-Extends act.body act.reply (with_queue drivers q w))
