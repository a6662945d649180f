-- ===== src/Sim/Tests.antt =====
-- One simulated switch in the box's list.
use hsbsw.Prelude.{none, ℕ, ◌≡◌, refl, arith, true, [], ◌∷◌, some}
use hsbsw.Codes.Error
use hsbsw.Device.Types.{Status, World}
use hsbsw.Switch.{VsDev, VsBox}
use hsbsw.Sim.{sim_mac}
use hsbsw.Sim.Pad.{Line, pad_request}
use hsbsw.Sim.Pad.Laws.{Understood, pad_request-Understood}

abbrev switch : VsDev
switch = record {
  id = 1;
  ip = 5;
  idle_time = 4;
  info = record {
    dev_class = 0;
    interface = 0;
    mac = sim_mac;
    status_bm = 0;
    event_bm = 0;
    action_bm = 0;
  };
}

abbrev world : World
world = record {
  cb = record {
    queue = [];
    offq = [];
    driverq = [];
    dev_id = 2;
    work_mode = 0;
    sec_today = 0;
    async = record { data_queue = []; active = true; mem = true };
  };
  pool = [];
}

abbrev box : VsBox
box = record { queue = switch ∷ []; world = world }

abbrev stack : ℕ → ℕ
stack i = 0xcd

abbrev request : Status
request = record { devid = 1; num = 1; id = 0 ∷ []; val = 300 ∷ [] }

pad_request-Understood_example : Understood stack (some 0) world (Line.action 7 2 1 5)
pad_request-Understood_example =
    pad_request-Understood stack (some 0) world (Line.action 7 2 1 5)
      (omega arith, omega arith, omega arith, omega arith, refl)

-- The line "set timer 1 2" makes the client write past its array.
set_timer_overflows : pad_request (Line.set_timer 1 2) ≡ none
unfolding pad_request
set_timer_overflows = refl
