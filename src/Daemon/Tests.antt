-- ===== src/Daemon/Tests.antt =====
-- A start with one switch that answers, and no serial line.
use hsbsw.Prelude.{some, ◌≡◌, arith, refl, true, false, [], ◌∷◌}
use hsbsw.Device.System.Invariant.{IsValid}
use hsbsw.Network.Field.{Buf}
use hsbsw.Switch.Probe.{Receipt}
use hsbsw.Daemon.{Daemon, Boot, init_dev_module}
use hsbsw.Daemon.Laws.{init_dev_module-IsValid}

-- A receipt that timed out, so that the search ends.
abbrev nothing : Receipt
nothing = record { ret = 0; addr = 0; byte = λ i. 0; more = false }

abbrev boot : Boot
boot = record {
  switch_starts = true;
  serial_opens = false;
  zigbee_starts = false;
  has_broadcast = true;
  receipts = nothing ∷ [];
  switch_stack = λ i. 0;
  zigbee_stack = λ i. 0;
}

abbrev buf : Buf
buf = record { size = 256; byte = λ i. 0 }

abbrev before : Daemon
before = record {
  switches = [];
  sensors = [];
  ctl = record {
    is_waiting = false;
    send_buf = buf;
    recv_buf = buf;
    send_len = 0;
    recv_len = 0;
    trans_id = 0;
  };
  world = record {
    cb = record {
      queue = [];
      offq = [];
      driverq = [];
      dev_id = 0;
      work_mode = 0;
      sec_today = 0;
      async = record { data_queue = []; active = false; mem = true };
    };
    pool = [];
  };
}

init_dev_module-IsValid_example :
    (d' : Daemon) × (init_dev_module boot before ≡ some d') × IsValid d'.world.cb
init_dev_module-IsValid_example =
    init_dev_module-IsValid boot before (omega arith) refl (omega arith)
