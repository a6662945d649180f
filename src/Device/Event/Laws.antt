-- ===== src/Device/Event/Laws.antt =====
-- What an event of core_daemon/device.c does: the requests of the linkages that apply, and who is
-- told of it (`notify_resp` of core_daemon/network.c).
use mathlib.Core.Option
use mathlib.Core.List.{append_assoc, append-nil}
use native.Mathlib.Nat.{add-zero}
use hsbsw.Prelude.{
  ℕ, zero, suc, ◌+◌, ◌≡◌, refl, Bool, true, false, List, [], ◌∷◌, ◌++◌, Option, none, some, ◌&&◌,
  ◌==◌, if◌then◌else◌, check_bit, get_elem?, arith, Option-cases, Bool-cases, inl, inr,
}
use hsbsw.Device.Types.{
  Evt, Act, set_status, do_action, Resp, RespBody, result, event, status, Linkage, LinkageStatus,
  Dev, AsyncCtl, DeviceCb, Client, World,
}
use hsbsw.Device.Async.{set_dev_action_async, set_dev_status_async}
use hsbsw.Device.Find.{find_dev}
use hsbsw.Device.Event.{
  is_event, is_reply_of, is_addressee, notify_from, notify_resp, link_act, link_applies, link_loop,
  check_linkage, dev_event,
}

-- The request of a linkage, for which no client waits.
abbrev pub link_request : Linkage → Act
link_request link =
    if check_bit link.flag 0
    then record {
      body = do_action (record {
        devid = link.act_devid;
        id = link.act_id;
        param1 = link.act_param1;
        param2 = link.act_param2;
      });
      reply = none;
    }
    else record {
      body = set_status (record {
        devid = link.act_devid;
        num = 1;
        id = link.act_id ∷ [];
        val = link.act_param1 ∷ [];
      });
      reply = none;
    }

-- An active linkage is set off in the modes of its bits by the event that it names, with the parameters
-- that it names.
abbrev pub set_off : ℕ → Evt → Linkage → LinkageStatus → Bool
set_off mode evt link st =
    ((link.evt_id == evt.id) && (link.evt_param1 == evt.param1) && (link.evt_param2 == evt.param2))
    && (check_bit link.work_mode mode && st.active)

link_applies-set_off :
    (mode : ℕ) (evt : Evt) (link : Linkage) (st : LinkageStatus)
    → link_applies mode evt link st ≡ set_off mode evt link st
unfolding link_applies
link_applies-set_off mode evt link st = ground arith

-- The requests of the linkages that the event sets off, in the order of their slots.
abbrev pub link_requests : ℕ → Evt → List Linkage → List LinkageStatus → List Act
link_requests mode evt (link ∷ links) (st ∷ sts) =
    if set_off mode evt link st
    then link_request link ∷ link_requests mode evt links sts
    else link_requests mode evt links sts
link_requests mode evt links sts = []

link_act-queue :
    (link : Linkage) (c : AsyncCtl)
    → c.mem ≡ true
    → link_act link c ≡ record c { data_queue = c.data_queue ++ (link_request link ∷ []) }
unfolding link_act set_dev_action_async set_dev_status_async
link_act-queue link c h = ground arith

link_loop-queue :
    (mode : ℕ) (evt : Evt) (links : List Linkage) (sts : List LinkageStatus) (c : AsyncCtl)
    → c.mem ≡ true
    → link_loop mode evt links sts c
      ≡ record c { data_queue = c.data_queue ++ link_requests mode evt links sts }
unfolding link_loop
link_loop-queue mode evt (link ∷ links) (st ∷ sts) c h =
    elim (Bool-cases (link_applies mode evt link st)) [
      | inl yes' ↦ ground (
        arith,
        link_applies-set_off mode evt link st,
        link_act-queue link c h,
        link_loop-queue mode evt links sts (link_act link c),
        append_assoc c.data_queue (link_request link ∷ []) (link_requests mode evt links sts),
      )
      | inr no' ↦
          ground
            (arith, link_applies-set_off mode evt link st, link_loop-queue mode evt links sts c h)
    ]
link_loop-queue mode evt [] sts c h = ground (arith, append-nil c.data_queue)
link_loop-queue mode evt (link ∷ links) [] c h = ground (arith, append-nil c.data_queue)

-- The requests that an event of a device sets off: none if the device is not online or does not work
-- in the mode of the box.
abbrev pub event_requests : ℕ → Evt → DeviceCb → List Act
event_requests devid evt cb = requests (find_dev cb.queue devid)
  where
    requests : Option Dev → List Act
    requests none = []
    requests (some pdev) =
        if check_bit pdev.work_mode cb.work_mode
        then link_requests cb.work_mode evt pdev.link pdev.link_status
        else []

-- While there is memory, an event queues the requests of the linkages of its device that are active,
-- work in the mode of the box and name the event with both its parameters, in the order of their
-- slots, if the device is online and works in that mode; it changes nothing else of `gl_dev_cb`.
pub check_linkage-queue :
    (devid : ℕ) (evt : Evt) (cb : DeviceCb)
    → cb.async.mem ≡ true
    → (check_linkage devid evt cb).1 ≡ record cb {
      async = record (cb.async) { data_queue = cb.async.data_queue ++ event_requests devid evt cb };
    }
unfolding check_linkage
check_linkage-queue devid evt cb h = elim (Option-cases (find_dev cb.queue devid)) [
  | inl e ↦ ground (arith, append-nil cb.async.data_queue)
  | inr (pdev, e) ↦ ground (
    arith,
    append-nil cb.async.data_queue,
    link_loop-queue cb.work_mode evt pdev.link pdev.link_status cb.async h,
  )
]

-- An event is for every client, any other response for the client that has asked for it.
abbrev pub concerns : Resp → ℕ → Bool
concerns msg i = told msg.body msg.reply
  where
    told : RespBody → Option ℕ → Bool
    told (event evt) reply = true
    told (result ret) (some r) = r == i
    told (status st) (some r) = r == i
    told (result ret) none = false
    told (status st) none = false

is_addressee-concerns :
    (msg : Resp) (i : ℕ) (c : Client) → is_addressee msg i c ≡ (c.using && concerns msg i)
is_addressee-concerns msg i c = told msg.body msg.reply
  where
    told :
        (body : RespBody) (reply : Option ℕ)
        → is_addressee (record { body = body; reply = reply }) i c
          ≡ (c.using && concerns (record { body = body; reply = reply }) i)
    told (event evt) reply = refl
    told (result ret) (some r) = refl
    told (status st) (some r) = refl
    told (result ret) none = refl
    told (status st) none = refl

pub concerns-is_reply_of :
    (body : RespBody) (reply : Option ℕ) (i : ℕ)
    → is_event body ≡ false
    → concerns (record { body = body; reply = reply }) i ≡ is_reply_of reply i
concerns-is_reply_of (event evt) reply i e = absurd (cc)
concerns-is_reply_of (result ret) (some r) i e = refl
concerns-is_reply_of (result ret) none i e = refl
concerns-is_reply_of (status st) (some r) i e = refl
concerns-is_reply_of (status st) none i e = refl

notify_from-get_elem? :
    (mem : Bool) (msg : Resp) (cnt : ℕ) (pool : List Client) (i : ℕ)
    → get_elem? (notify_from mem msg cnt pool) i
      ≡ Option.map
          (λ c.
            if (c.using && concerns msg (cnt + i)) && mem
            then record c { queue = c.queue ++ (msg ∷ []); notified = c.notified + 1 }
            else c)
          (get_elem? pool i)
unfolding notify_from
notify_from-get_elem? mem msg cnt [] i = refl
notify_from-get_elem? mem msg cnt (c ∷ pool) zero = rw (add-zero, is_addressee-concerns msg cnt c)
notify_from-get_elem? mem msg cnt (c ∷ pool) (suc i) =
    let e : cnt + suc i ≡ suc cnt + i = omega arith in
    rw e (notify_from-get_elem? mem msg (suc cnt) pool i)

-- A context gets a copy of the response at the end of its queue, and one datagram, exactly if it is
-- in use, there is memory, and the response is an event or answers a request of that very context.
-- Every other context stays as it is, and no context is added or lost.
pub notify_resp-get_elem? :
    (msg : Resp) (w : World) (i : ℕ)
    → get_elem? (notify_resp msg w).pool i
      ≡ Option.map
          (λ c.
            if (c.using && concerns msg i) && w.cb.async.mem
            then record c { queue = c.queue ++ (msg ∷ []); notified = c.notified + 1 }
            else c)
          (get_elem? w.pool i)
unfolding notify_resp
notify_resp-get_elem? msg w i =
    let e : 0 + i ≡ i = omega arith in rw e at (notify_from-get_elem? w.cb.async.mem msg 0 w.pool i)

-- The registry and the alarms stay as they are under an event.
pub record SameDevices (a b : DeviceCb) : Type 0 where
  pub queue : a.queue ≡ b.queue
  pub offq : a.offq ≡ b.offq
  pub driverq : a.driverq ≡ b.driverq
  pub dev_id : a.dev_id ≡ b.dev_id

pub check_linkage-SameDevices :
    (devid : ℕ) (evt : Evt) (cb : DeviceCb) → SameDevices (check_linkage devid evt cb).1 cb
unfolding check_linkage
check_linkage-SameDevices devid evt cb = ground arith

pub dev_event-SameDevices :
    (devid type param1 param2 : ℕ) (w : World)
    → SameDevices (dev_event devid type param1 param2 w).cb w.cb
unfolding dev_event notify_resp
dev_event-SameDevices devid type param1 param2 w =
    check_linkage-SameDevices devid
      (record { devid = devid; id = type; param1 = param1; param2 = param2 }) w.cb
