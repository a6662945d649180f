-- ===== src/Device/Timers.antt =====
-- The timers of a device: `get_dev_timer`, `set_dev_timer` and `del_dev_timer` of
-- core_daemon/device.c. The guards come before every
-- access to a slot.
pub mod Laws
use hsbsw.Prelude.{ℕ, true, false, Option, none, some, leb, set, get_or, if◌then◌else◌}
use hsbsw.Codes.Error
use hsbsw.Device.Types.{Timer, Dev, World, max_timer_num, zero_timer, zero_timer_status}
use hsbsw.Device.Find.{find_dev, update_dev}

-- A write to the device that `_find_dev` finds, in place.
unfoldable pub write_timer : ℕ → (Dev → Dev) → World → World
unfolding update_dev
write_timer dev_id f w = record w { cb = record (w.cb) { queue = update_dev w.cb.queue dev_id f } }

-- The result, and the timer that is copied out.
unfoldable pub get_dev_timer : ℕ → ℕ → World → ℕ × Option Timer
unfolding find_dev
get_dev_timer dev_id timer_id w = elim (find_dev w.cb.queue dev_id) [
  | none ↦ (Error.bad_param, none)
  | some dev ↦
      if leb max_timer_num timer_id
      then (Error.bad_param, none)
      else if (get_or dev.timer_status timer_id zero_timer_status).active
      then (Error.ok, some (get_or dev.timer timer_id zero_timer))
      else (Error.bad_param, none)
]

-- The writes of `set_dev_timer`: the timer, and a status that is active and not expired.
unfoldable pub put_timer : Timer → Dev → Dev
put_timer timer dev = record dev {
  timer = set dev.timer timer.id timer;
  timer_status = set dev.timer_status timer.id (record { active = true; expired = false });
}

unfoldable pub set_dev_timer : ℕ → Timer → World → ℕ × World
unfolding find_dev write_timer put_timer
set_dev_timer dev_id timer w = elim (find_dev w.cb.queue dev_id) [
  | none ↦ (Error.bad_param, w)
  | some dev ↦
      if leb max_timer_num timer.id
      then (Error.bad_param, w)
      else (Error.ok, write_timer dev_id (put_timer timer) w)
]

-- The two `memset`s of `del_dev_timer`.
unfoldable pub clear_timer : ℕ → Dev → Dev
clear_timer timer_id dev = record dev {
  timer = set dev.timer timer_id zero_timer;
  timer_status = set dev.timer_status timer_id zero_timer_status;
}

unfoldable pub del_dev_timer : ℕ → ℕ → World → ℕ × World
unfolding find_dev write_timer clear_timer
del_dev_timer dev_id timer_id w = elim (find_dev w.cb.queue dev_id) [
  | none ↦ (Error.bad_param, w)
  | some dev ↦
      if leb max_timer_num timer_id
      then (Error.bad_param, w)
      else if (get_or dev.timer_status timer_id zero_timer_status).active
      then (Error.ok, write_timer dev_id (clear_timer timer_id) w)
      else (Error.bad_param, w)
]
