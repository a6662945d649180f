-- ===== src/Device/Process.antt =====
-- The worker side of core_daemon/device.c: what a queued request does (`_process_dev_act` and the
-- functions under it), and `async_process_thread` as steps over the queue.
pub mod Answers
pub mod Order
use hsbsw.Prelude.{
  ℕ, true, false, List, [], ◌∷◌, Option, none, some, ◌&&◌, ◌==◌, if◌then◌else◌, get_or,
}
use hsbsw.Codes.Error
use hsbsw.Codes.{status_type_work_mode}
use hsbsw.Device.Types.{
  Action, Status, Act, ActBody, probe, set_status, get_status, do_action, RespBody, result, status,
  OpTable, DrvOpTable, World,
}
use hsbsw.Device.Find.{find_dev, find_drv}
use hsbsw.Device.Event.{notify_resp, set_box_work_mode}

-- What the drivers' operation tables hold. A missing entry is a NULL function pointer. A driver asks
-- the device over the network or the serial line, whose answers are not the program's: a function of
-- the request stands for one such exchange. A probe may register devices, so it maps the state.
pub record Drivers : Type 0 where
  pub get_status : OpTable → Option (Status → ℕ × Status)
  pub set_status : OpTable → Option (Status → ℕ)
  pub set_action : OpTable → Option (Action → ℕ)
  pub probe : DrvOpTable → Option (World → ℕ × World)

module _ (drivers : Drivers) where
  -- The result, and the status that the driver fills in.
  unfoldable pub get_dev_status : Status → World → ℕ × Status
  unfolding find_dev
  get_dev_status st w = elim (find_dev w.cb.queue st.devid) [
    | none ↦ (Error.entry_not_found, st)
    | some pdev ↦ elim pdev.op [
      | none ↦ (Error.not_supported, st)
      | some op ↦ elim (drivers.get_status op) [ none ↦ (Error.not_supported, st) | some f ↦ f st ]
    ]
  ]

  unfoldable pub set_dev_status : Status → World → ℕ × World
  unfolding find_dev set_box_work_mode
  set_dev_status st w =
      if (0 == st.devid) && (get_or st.id 0 0 == status_type_work_mode)
      then set_box_work_mode (get_or st.val 0 0) w
      else elim (find_dev w.cb.queue st.devid) [
        | none ↦ (Error.entry_not_found, w)
        | some pdev ↦ elim pdev.op [
          | none ↦ (Error.not_supported, w)
          | some op ↦ elim (drivers.set_status op) [
            | none ↦ (Error.not_supported, w)
            | some f ↦ (f st, w)
          ]
        ]
      ]

  unfoldable pub set_dev_action : Action → World → ℕ
  unfolding find_dev
  set_dev_action act w = elim (find_dev w.cb.queue act.devid) [
    | none ↦ Error.entry_not_found
    | some pdev ↦ elim pdev.op [
      | none ↦ Error.not_supported
      | some op ↦ elim (drivers.set_action op) [ none ↦ Error.not_supported | some f ↦ f act ]
    ]
  ]

  unfoldable pub probe_dev : ℕ → World → ℕ × World
  unfolding find_drv
  probe_dev drv_id w = elim (find_drv w.cb.driverq drv_id) [
    | none ↦ (Error.bad_param, w)
    | some pdrv ↦ elim pdrv.op [
      | none ↦ (Error.ok, w)
      | some op ↦ elim (drivers.probe op) [ none ↦ (Error.ok, w) | some f ↦ f w ]
    ]
  ]

  -- A result goes to the client that asked, and to nobody if no client did.
  unfoldable pub reply_result : Option ℕ → ℕ → World → World
  unfolding notify_resp
  reply_result none ret w = w
  reply_result (some r) ret w = notify_resp (record { body = result ret; reply = some r }) w

  -- The body of the answer to GET_STATUS: the error, or the status that was filled in.
  unfoldable pub status_answer : ℕ × Status → RespBody
  status_answer (ret, st) = if ret == Error.ok then status st else result ret

  -- The cases of `_process_dev_act`. (The sleep after a remote control action changes no state.)
  unfoldable pub process_body : ActBody → Option ℕ → World → World
  unfolding probe_dev set_dev_status get_dev_status set_dev_action reply_result status_answer
  process_body (probe drvid) reply w =
      let (ret, w') = probe_dev drvid w in reply_result reply ret w'
  process_body (set_status st) reply w =
      let (ret, w') = set_dev_status st w in reply_result reply ret w'
  process_body (get_status st) reply w =
      notify_resp (record { body = status_answer (get_dev_status st w); reply = reply }) w
  process_body (do_action act) reply w = reply_result reply (set_dev_action act w) w

  -- `_process_dev_act`
  unfoldable pub process_dev_act : Act → World → World
  unfolding process_body
  process_dev_act act w = process_body act.body act.reply w

  -- `g_queue_pop_head` on the data queue
  abbrev pub with_queue : List Act → World → World
  with_queue q w = record w {
    cb = record (w.cb) { async = record (w.cb.async) { data_queue = q } };
  }

  -- One round of `async_process_thread`; a round that finds no request waits.
  unfoldable pub process_round : World → World
  unfolding process_dev_act
  process_round w = elim w.cb.async.active [
    | false ↦ w
    | true ↦ elim w.cb.async.data_queue [ [] ↦ w | act ∷ q ↦ process_dev_act act (with_queue q w) ]
  ]
