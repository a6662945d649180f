-- ===== src/Device/Tests/Worker.antt =====
-- An event and the requests that the worker thread of core_daemon/device.c deals with.
use mathlib.Core.List.{append-nil}
use hsbsw.Prelude.{ℕ, ◌≡◌, refl, ap, sym, ◌∙◌, [], ◌∷◌, Option, none, some, get_elem?, check_bit}
use hsbsw.Codes.Error
use hsbsw.Codes.EvtType
use hsbsw.Device.Types.{Evt, Act, set_status, Resp, result, DeviceCb, World}
use hsbsw.Device.Find.{find_dev}
use hsbsw.Device.Event.{check_linkage, link_applies, notify_resp}
use hsbsw.Device.Event.Laws.{check_linkage-queue, notify_resp-get_elem?}
use hsbsw.Device.Types.{DrvOpTable}
use hsbsw.Device.Process.Order.{Extends, process_round-queue}
use hsbsw.Device.Process.{process_round, Drivers, set_dev_status, process_dev_act}
use hsbsw.Device.Process.Answers.{outcome, process_dev_act-answers}
use hsbsw.Device.Tests.Box.{client, box}

-- What the linkage of the armed device asks for.
abbrev asked : Act
asked = record {
  body = set_status (record { devid = 2; num = 1; id = 0 ∷ []; val = 1 ∷ [] });
  reply = none;
}

abbrev triggered : Evt
triggered = record { devid = 3; id = EvtType.sensor_triggered; param1 = 4; param2 = 0 }

check_linkage-queue_example : (check_linkage 3 triggered box.cb).1.async.data_queue ≡ asked ∷ []
unfolding find_dev check_bit link_applies
check_linkage-queue_example =
    ap (λ (cb : DeviceCb). cb.async.data_queue) (check_linkage-queue 3 triggered box.cb refl)

-- The first context asked.
abbrev answered : Resp
answered = record { body = result 0; reply = some 0 }

notify_resp-get_elem?_example :
    get_elem? (notify_resp answered box).pool 0
    ≡ some (record client { queue = answered ∷ []; notified = 1 })
notify_resp-get_elem?_example = notify_resp-get_elem? answered box 0

-- Drivers that fail every request, and find no device.
abbrev failing : Drivers
failing = record {
  get_status = λ op. none;
  set_status = λ op. some (λ st. Error.act_failed);
  set_action = λ op. none;
  probe = λ op. some (λ w. (Error.ok, w));
}

failing_probe :
    (op : DrvOpTable) (f : World → ℕ × World)
    → failing.probe op ≡ some f
    → (w : World) → Extends w.cb.async.data_queue (f w).1.cb.async.data_queue
failing_probe op f e w = (
  [],
  ap
        (λ (o : Option (World → ℕ × World)). elim o [
          | none ↦ []
          | some g ↦ (g w).1.cb.async.data_queue
        ])
        (sym e)
      ∙ sym (append-nil w.cb.async.data_queue),
)

-- Context 0 asks for a status of device 2.
process_dev_act-answers_example :
    get_elem?
      (process_dev_act failing
        (record {
          body = set_status (record { devid = 2; num = 1; id = 0 ∷ []; val = 1 ∷ [] });
          reply = some 0;
        })
        box).pool
      0
    ≡ some (record client {
      queue = record { body = result Error.act_failed; reply = some 0 } ∷ [];
      notified = 1;
    })
unfolding outcome set_dev_status find_dev
process_dev_act-answers_example =
    process_dev_act-answers failing
      (record {
        body = set_status (record { devid = 2; num = 1; id = 0 ∷ []; val = 1 ∷ [] });
        reply = some 0;
      })
      box 0

-- Two requests wait; the first sets the work mode.
abbrev set_mode : Act
set_mode = record {
  body = set_status (record { devid = 0; num = 1; id = 4 ∷ []; val = 1 ∷ [] });
  reply = none;
}

abbrev waiting : World
waiting = record box {
  cb = record (box.cb) { async = record (box.cb.async) { data_queue = set_mode ∷ asked ∷ [] } };
}

process_round-queue_example :
    Extends (asked ∷ []) (process_round failing waiting).cb.async.data_queue
process_round-queue_example =
    process_round-queue failing failing_probe set_mode (asked ∷ []) waiting refl refl
