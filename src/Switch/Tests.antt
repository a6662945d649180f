-- ===== src/Switch/Tests.antt =====
-- Two switches, one of them silent for too long.
use hsbsw.Prelude.{ℕ, ◌≡◌, true, [], ◌∷◌, some}
use hsbsw.Device.Types.{Drv, World, virtual_switch_drv_op}
use hsbsw.Device.Registry.{dev_offline}
use hsbsw.Switch.{VsInfo, VsDev, VsBox, remove_timeout_dev}
use hsbsw.Switch.Laws.{remove_timeout_dev_lem}

abbrev info : ℕ → VsInfo
info n = record {
  dev_class = 1;
  interface = 0;
  mac = n ∷ 0 ∷ 0 ∷ 0 ∷ 0 ∷ 0 ∷ [];
  status_bm = 0;
  event_bm = 0;
  action_bm = 0;
}

abbrev switch : ℕ → ℕ → VsDev
switch n idle = record { id = n; ip = n; idle_time = idle; info = info n }

abbrev drv : Drv
drv = record { name = "virtual switch"; id = 1; op = some virtual_switch_drv_op }

abbrev world : World
world = record {
  cb = record {
    queue = [];
    offq = [];
    driverq = drv ∷ [];
    dev_id = 3;
    work_mode = 0;
    sec_today = 0;
    async = record { data_queue = []; active = true; mem = true };
  };
  pool = [];
}

abbrev box : VsBox
box = record { queue = switch 1 11 ∷ switch 2 10 ∷ []; world = world }

remove_timeout_dev_lem_example :
    remove_timeout_dev box ≡ record { queue = switch 2 11 ∷ []; world = (dev_offline 1 world).1 }
remove_timeout_dev_lem_example = remove_timeout_dev_lem box
