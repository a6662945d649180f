-- ===== src/Sim/Heard.antt =====
-- What the box makes of the broadcasts of misc/switch_sim.c: the monitor thread of
-- core_daemon/driver_virtual_switch.c at the other end.
use hsbsw.Prelude.{ℕ, Bool, true, false, not, [], ◌∷◌, ◌==◌, ◌||◌, if◌then◌else◌}
use hsbsw.Device.Types.{World}
use hsbsw.Device.Event.{
  dev_mode_changed, dev_status_updated, dev_sensor_triggered, dev_sensor_recovered,
}
use hsbsw.Sim.{Input}

-- What each line of input is to come to, at a device with this id.
abbrev pub heard : ℕ → Input → World → World
heard devid (Input.status val) w =
    dev_status_updated devid (record { devid = devid; num = 1; id = 0 ∷ []; val = val ∷ [] }) w
heard devid (Input.sensor val) w =
    if val == 0 then dev_sensor_recovered devid 0 w else dev_sensor_triggered devid 0 w
heard devid (Input.key val) w =
    if (val == 0) || (val == 1) || (val == 2)
    then dev_mode_changed val (record w { cb = record (w.cb) { work_mode = val } })
    else w
heard devid Input.other w = w

abbrev pub input_value : Input → ℕ
input_value (Input.status val) = val
input_value (Input.sensor val) = val
input_value (Input.key val) = val
input_value Input.other = 0

-- The lines that lead to a broadcast: not a status that is set already.
abbrev pub tells : Input → ℕ → Bool
tells (Input.status val) s = not (s == val)
tells (Input.sensor val) s = true
tells (Input.key val) s = true
tells Input.other s = false
