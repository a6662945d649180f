-- ===== src/Device/Delays.antt =====
-- The delays of a device: `get_dev_delay`, `set_dev_delay` and `del_dev_delay` of
-- core_daemon/device.c. The guards come before every
-- access to a slot.
pub mod Laws
use hsbsw.Prelude.{ℕ, true, false, Option, none, some, leb, set, get_or, if◌then◌else◌}
use hsbsw.Codes.Error
use hsbsw.Device.Types.{Delay, Dev, World, max_delay_num, zero_delay, zero_delay_status}
use hsbsw.Device.Find.{find_dev, update_dev}

-- A write to the device that `_find_dev` finds, in place.
unfoldable pub write_delay : ℕ → (Dev → Dev) → World → World
unfolding update_dev
write_delay dev_id f w = record w { cb = record (w.cb) { queue = update_dev w.cb.queue dev_id f } }

-- The result, and the delay that is copied out.
unfoldable pub get_dev_delay : ℕ → ℕ → World → ℕ × Option Delay
unfolding find_dev
get_dev_delay dev_id delay_id w = elim (find_dev w.cb.queue dev_id) [
  | none ↦ (Error.bad_param, none)
  | some dev ↦
      if leb max_delay_num delay_id
      then (Error.bad_param, none)
      else if (get_or dev.delay_status delay_id zero_delay_status).active
      then (Error.ok, some (get_or dev.delay delay_id zero_delay))
      else (Error.bad_param, none)
]

-- The writes of `set_dev_delay`: of the status only `active` is written.
unfoldable pub put_delay : Delay → Dev → Dev
put_delay delay dev = record dev {
  delay = set dev.delay delay.id delay;
  delay_status =
      set dev.delay_status delay.id
        (record (get_or dev.delay_status delay.id zero_delay_status) { active = true });
}

unfoldable pub set_dev_delay : ℕ → Delay → World → ℕ × World
unfolding find_dev write_delay put_delay
set_dev_delay dev_id delay w = elim (find_dev w.cb.queue dev_id) [
  | none ↦ (Error.bad_param, w)
  | some dev ↦
      if leb max_delay_num delay.id
      then (Error.bad_param, w)
      else (Error.ok, write_delay dev_id (put_delay delay) w)
]

-- The writes of `del_dev_delay`: of the status only `active` is written.
unfoldable pub clear_delay : ℕ → Dev → Dev
clear_delay delay_id dev = record dev {
  delay = set dev.delay delay_id zero_delay;
  delay_status =
      set dev.delay_status delay_id
        (record (get_or dev.delay_status delay_id zero_delay_status) { active = false });
}

unfoldable pub del_dev_delay : ℕ → ℕ → World → ℕ × World
unfolding find_dev write_delay clear_delay
del_dev_delay dev_id delay_id w = elim (find_dev w.cb.queue dev_id) [
  | none ↦ (Error.bad_param, w)
  | some dev ↦
      if leb max_delay_num delay_id
      then (Error.bad_param, w)
      else if (get_or dev.delay_status delay_id zero_delay_status).active
      then (Error.ok, write_delay dev_id (clear_delay delay_id) w)
      else (Error.bad_param, w)
]
