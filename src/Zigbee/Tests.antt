-- ===== src/Zigbee/Tests.antt =====
-- A sensor on the serial line: its frames, and the answer to a request.
use mathlib.Core.List.{Nodup-nil, not-mem-nil}
use hsbsw.Prelude.{
  ℕ, ◌+◌, ◌<◌, ◌≡◌, ◌≢◌, ◌↔◌, refl, arith, true, false, List, [], ◌∷◌, none, some, get_or,
}
use hsbsw.Codes.Error
use hsbsw.Device.Types.{Action, World}
use hsbsw.Device.Find.{find_drv, get_dev_id_list}
use hsbsw.Device.System.{Reach}
use hsbsw.Device.System.Invariant.{IsValid}
use hsbsw.Network.Field.{Buf, get_u16}
use hsbsw.Zigbee.{CzDev, CzBox, cz_drv, cz_status_updated, cz_find_by_id, cz_find_by_short_addr}
use hsbsw.Zigbee.Ops.{action_frame, sample_set_action, memcpy}
use hsbsw.Zigbee.Frame.{
  monitor_frame, read_into, deal_recv_buf, deal_answer, deal_unsolicited, deal_status_changed,
}
use hsbsw.Zigbee.Steps.{monitor_frame-Reach}
use hsbsw.Zigbee.Answers.{overlay, received, chosen, receive_all-latest, receive_all-zero}
use hsbsw.Zigbee.Requests.{waiting, sample_set_action-verdict}
use hsbsw.Zigbee.Bounds.{monitor_frame-none_iff}

-- An array of 256 bytes that begins with these.
abbrev array : List ℕ → Buf
array bytes = record { size = 256; byte = λ i. get_or bytes i 0 }

abbrev sensor : CzDev
sensor = record {
  id = 7;
  short_addr = 9;
  end_point = 10;
  idle_time = 0;
  info = record {
    dev_class = 1;
    interface = 2;
    mac = 1 ∷ 2 ∷ 3 ∷ 4 ∷ 5 ∷ 6 ∷ 7 ∷ 8 ∷ [];
    status_bm = 0;
    event_bm = 0;
    action_bm = 0;
  };
}

abbrev world : World
world = record {
  cb = record {
    queue = [];
    offq = [];
    driverq = cz_drv ∷ [];
    dev_id = 1;
    work_mode = 0;
    sec_today = 0;
    async = record { data_queue = []; active = true; mem = true };
  };
  pool = [];
}

world-IsValid : IsValid world.cb
unfolding get_dev_id_list
world-IsValid = record {
  online = tt;
  offline = tt;
  ids = record { distinct = Nodup-nil; fresh = λ i m. absurd (not-mem-nil m) };
}

-- A request with this transaction id may wait.
abbrev box : ℕ → CzBox
box t = record {
  queue = sensor ∷ [];
  ctl = record {
    is_waiting = true;
    send_buf = array [];
    recv_buf = array [];
    send_len = 0;
    recv_len = 0;
    trans_id = t;
  };
  world = world;
}

-- The header of a frame of 20 bytes with a transaction id, and status 1 is 1.
abbrev changed : ℕ → List ℕ
changed t =
    0xaa ∷ 0x55 ∷ 20 ∷ 0 ∷ 0 ∷ 0 ∷ 9 ∷ 0 ∷ 10 ∷ 0 ∷ t ∷ 0 ∷ 0x14 ∷ 0x91 ∷ 8 ∷ 0 ∷ 1 ∷ 0 ∷ 1 ∷ 0 ∷ []

-- A RESULT of 18 bytes, with result 1.
abbrev answer : ℕ → List ℕ
answer t = 0xaa ∷ 0x55 ∷ 18 ∷ 0 ∷ 0 ∷ 0 ∷ 9 ∷ 0 ∷ 10 ∷ 0 ∷ t ∷ 0 ∷ 0x91 ∷ 0x91 ∷ 6 ∷ 0 ∷ 1 ∷ 0 ∷ []

world_has_driver : find_drv world.cb.driverq cz_drv.id ≢ none
unfolding find_drv
world_has_driver = ground arith

monitor_frame-Reach_example : Reach world (cz_status_updated 7 1 1 world)
unfolding monitor_frame read_into deal_recv_buf deal_unsolicited deal_status_changed get_u16
    cz_find_by_short_addr
monitor_frame-Reach_example =
    monitor_frame-Reach (box 1) world_has_driver (omega arith) (array (changed 0)) 12
      (λ i. get_or (changed 0) (12 + i) 0) 8
      (record (box 1) { world = cz_status_updated 7 1 1 world }) refl

-- A frame that says it has 300 bytes.
monitor_frame-none_iff_example :
    (monitor_frame (array (0xaa ∷ 0x55 ∷ 44 ∷ 1 ∷ [])) 12 (λ i. 0) 288 (box 1) ≡ none)
    ↔ (256 < 12 + 288)
unfolding get_u16
monitor_frame-none_iff_example =
    monitor_frame-none_iff (box 1) world-IsValid refl (array (0xaa ∷ 0x55 ∷ 44 ∷ 1 ∷ [])) 300
      (λ i. 0) 288 refl refl refl refl (omega arith) (omega arith)

-- A notification, the answer to an earlier request, and the answer.
abbrev frames : List (Buf × ℕ)
frames = (array (changed 0), 20) ∷ (array (answer 4), 18) ∷ (array (answer 5), 18) ∷ []

-- The box once it has the answer.
abbrev answered : CzBox → CzBox
answered b = record b {
  ctl = overlay b.ctl (array (answer 5)) 18;
  world = cz_status_updated 7 1 1 b.world;
}

receive_all-latest_example :
    received (answered (box 5)).ctl ≡ chosen (received (box 5).ctl) (some (array (answer 5), 18))
unfolding deal_recv_buf deal_unsolicited deal_status_changed deal_answer memcpy get_u16
    cz_find_by_short_addr
receive_all-latest_example =
    receive_all-latest frames (box 5) (answered (box 5)) refl (omega arith) refl

receive_all-zero_example :
    (record (box 0) { world = cz_status_updated 7 1 1 world }).ctl ≡ (box 0).ctl
unfolding deal_recv_buf deal_unsolicited deal_status_changed deal_answer get_u16
    cz_find_by_short_addr
receive_all-zero_example =
    receive_all-zero frames (box 0) (record (box 0) { world = cz_status_updated 7 1 1 world }) refl
      refl

abbrev action : Action
action = record { devid = 7; id = 2; param1 = 1; param2 = 5 }

-- The frame of the request.
abbrev sent : Buf
sent = elim (action_frame (λ i. 0xcd) action sensor 5) [ none ↦ array [] | some w ↦ w ]

sample_set_action-verdict_example :
    sample_set_action (λ i. 0xcd) (λ b. (false, answered b)) action (box 5)
    ≡ some (
      Error.ok,
      record (answered (waiting sent 24 (box 5))) {
        ctl = record ((answered (waiting sent 24 (box 5))).ctl) {
          is_waiting = false;
          trans_id = 6;
        };
      },
    )
unfolding cz_find_by_id action_frame deal_recv_buf deal_unsolicited deal_status_changed deal_answer
    memcpy get_u16 cz_find_by_short_addr
sample_set_action-verdict_example =
    sample_set_action-verdict (λ i. 0xcd) (λ b. (false, answered b)) action (box 5)
      (answered (waiting sent 24 (box 5))) sensor sent frames (array (answer 5)) 18 refl refl
      (omega arith) (omega arith) (omega arith) refl (omega arith) refl refl
