-- ===== src/Sim/Pad/Tests.antt =====
-- A client that asks for a timer, and one that is told a status.
use hsbsw.Prelude.{ℕ, ◌≡◌, refl, arith, true, false, [], ◌∷◌, some, set}
use hsbsw.Device.Types.{World, Dev, Timer, zero_dev, status, RespBody}
use hsbsw.Device.Timers.{get_dev_timer}
use hsbsw.Device.Find.{find_dev}
use hsbsw.Sim.Pad.{Line}
use hsbsw.Sim.Pad.Shown.{dev_timer, dev_status}
use hsbsw.Sim.Pad.Shown.Written.{timer, notification, sent}
use hsbsw.Sim.Pad.Shown.Replies.{ShownAs, deal_tcp_pkt-sent}
use hsbsw.Sim.Pad.Ask.{ask, ask-reply_to}

abbrev stack : ℕ → ℕ
stack i = 0xcd

abbrev evening : Timer
evening = record {
  id = 2;
  work_mode = 0xff;
  flag = 0;
  hour = 21;
  min = 49;
  sec = 0;
  wday = 0x7f;
  act_id = 0;
  act_param1 = 1;
  act_param2 = 70000;
}

abbrev lamp : Dev
lamp = record zero_dev {
  id = 7;
  timer = set zero_dev.timer 2 evening;
  timer_status = set zero_dev.timer_status 2 (record { active = true; expired = false });
}

abbrev world : World
world = record {
  cb = record {
    queue = lamp ∷ [];
    offq = [];
    driverq = [];
    dev_id = 8;
    work_mode = 0;
    sec_today = 0;
    async = record { data_queue = []; active = true; mem = true };
  };
  pool = [];
}

ask-reply_to_example :
    ask stack (some 0) (Line.get_timer 7 2) world ≡ some (dev_timer 7 evening, world)
unfolding get_dev_timer find_dev
ask-reply_to_example =
    ask-reply_to stack (some 0) (Line.get_timer 7 2) world (timer 7 evening)
      (omega arith, omega arith) refl (omega arith, omega arith)

abbrev told : RespBody
told = status (record { devid = 7; num = 2; id = 0 ∷ 3 ∷ []; val = 1 ∷ 500 ∷ [] })

deal_tcp_pkt-sent_example :
    ShownAs stack (sent (notification told)) (dev_status 7 ((0, 1) ∷ (3, 500) ∷ []))
deal_tcp_pkt-sent_example = deal_tcp_pkt-sent stack (notification told) (omega arith)
