-- ===== src/Daemon.antt =====
-- The start of core_daemon/core_daemon.c: `init_dev_module` of core_daemon/device.c with the two
-- drivers.
pub mod Laws
mod Tests
use hsbsw.Prelude.{ℕ, Bool, true, List, [], ◌∷◌, Option, none, some}
use hsbsw.Device.Types.{Drv, DrvOpTable, DeviceCb, World, virtual_switch_drv_op, cz_drv_op}
use hsbsw.Network.Field.{◌>>=◌}
use hsbsw.Switch.{VsDev, VsBox, init_virtual_switch_drv}
use hsbsw.Switch.Probe.{Receipt, virtual_switch_probe}
use hsbsw.Zigbee.{CzDev, CzCtl, CzBox, init_cz_drv}
use hsbsw.Zigbee.Ops.{cz_probe}

-- The state of the whole program: the two `gl_ctx` and the rest.
pub record Daemon : Type 0 where
  pub switches : List VsDev
  pub sensors : List CzDev
  pub ctl : CzCtl
  pub world : World

-- What the system calls of the start give: whether the threads start and the serial line opens, and
-- what the search for switches meets.
pub record Boot : Type 0 where
  pub switch_starts : Bool
  pub serial_opens : Bool
  pub zigbee_starts : Bool
  pub has_broadcast : Bool
  pub receipts : List Receipt
  pub switch_stack : ℕ → ℕ
  pub zigbee_stack : ℕ → ℕ

abbrev pub switch_part : Daemon → VsBox
switch_part d = record { queue = d.switches; world = d.world }

abbrev pub with_switch : Daemon → VsBox → Daemon
with_switch d b = record d { switches = b.queue; world = b.world }

abbrev pub zigbee_part : Daemon → CzBox
zigbee_part d = record { queue = d.sensors; ctl = d.ctl; world = d.world }

abbrev pub with_zigbee : Daemon → CzBox → Daemon
with_zigbee d b = record d { sensors = b.queue; ctl = b.ctl; world = b.world }

-- `init_private_thread`; whether its thread starts makes no difference to the state.
unfoldable pub init_private_thread : DeviceCb → DeviceCb
init_private_thread cb = record cb {
  async = record { data_queue = []; active = true; mem = cb.async.mem };
}

-- `drv->op->probe()`; `none` is a fault, as through a NULL table.
unfoldable pub probe_drv : Boot → Drv → Daemon → Option Daemon
probe_drv boot drv d = elim drv.op [
  | none ↦ none
  | some virtual_switch_drv_op ↦ do
    r ← virtual_switch_probe boot.has_broadcast boot.receipts boot.switch_stack (switch_part d)
    some (with_switch d r.1)
  | some cz_drv_op ↦ do b ← cz_probe boot.zigbee_stack (zigbee_part d); some (with_zigbee d b)
]

unfoldable pub probe_all_devices : Boot → List Drv → Daemon → Option Daemon
probe_all_devices boot [] d = some d
probe_all_devices boot (drv ∷ drvs) d = do d ← probe_drv boot drv d; probe_all_devices boot drvs d

-- What `init_dev_module` has done before it probes.
unfoldable pub init_drivers : Boot → Daemon → Daemon
init_drivers boot d =
    let cleared : DeviceCb = record (d.world.cb) {
      queue = [];
      driverq = [];
      offq = [];
      dev_id = 1;
    } in
    let d₀ = record d { world = record (d.world) { cb = init_private_thread cleared } } in
    let d₁ = with_switch d₀ (init_virtual_switch_drv boot.switch_starts (switch_part d₀)).1 in
    with_zigbee d₁ (init_cz_drv boot.serial_opens boot.zigbee_starts (zigbee_part d₁)).1

-- It always returns 0.
unfoldable pub init_dev_module : Boot → Daemon → Option Daemon
init_dev_module boot d =
    let d₁ = init_drivers boot d in probe_all_devices boot d₁.world.cb.driverq d₁
