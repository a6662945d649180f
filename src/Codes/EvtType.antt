-- ===== src/Codes/EvtType.antt =====
-- `HSB_EVT_TYPE_T` of include/hsb_device.h.
use hsbsw.Prelude.{ℕ}

abbrev pub status_updated : ℕ
status_updated = 0

abbrev pub dev_updated : ℕ
dev_updated = 1

abbrev pub sensor_triggered : ℕ
sensor_triggered = 2

abbrev pub sensor_recovered : ℕ
sensor_recovered = 3

abbrev pub mode_changed : ℕ
mode_changed = 4

abbrev pub ir_key : ℕ
ir_key = 5
