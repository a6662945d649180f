-- ===== src/Device/Timers/Laws.antt =====
-- The timers of the devices as a table: what each operation of core_daemon/device.c on timers makes
-- of it, on every branch.
use hsbsw.Prelude.{
  ℕ, ◌≡◌, refl, true, false, none, some, ◌==◌, ◌&&◌, if◌then◌else◌, get_or-set, length-set, All,
  arith, is_some, Option-cases, inl, inr, ltb,
}
use hsbsw.Codes.Error
use hsbsw.Device.Types.{Timer, Dev, World, zero_timer, zero_timer_status, max_timer_num}
use hsbsw.Device.Find.{find_dev}
use hsbsw.Device.Find.Laws.{find_dev-update_dev, find_dev-All, update_dev-All}
use hsbsw.Device.Slots.{IsSized, Table, put_at}
use hsbsw.Device.Timers.{
  get_dev_timer, set_dev_timer, del_dev_timer, put_timer, clear_timer, write_timer,
}

-- The table: what `get_dev_timer` copies out.
abbrev pub timer_at : World → Table Timer
timer_at w j k = (get_dev_timer j k w).1

pub put_timer-IsSized : (timer : Timer) (dev : Dev) → IsSized dev → IsSized (put_timer timer dev)
unfolding put_timer
put_timer-IsSized timer dev s = ground (
  arith,
  length-set dev.timer timer.id timer,
  length-set dev.timer_status timer.id (record { active = true; expired = false }),
)

pub clear_timer-IsSized : (k : ℕ) (dev : Dev) → IsSized dev → IsSized (clear_timer k dev)
unfolding clear_timer
clear_timer-IsSized k dev s =
    ground
      (arith, length-set dev.timer k zero_timer, length-set dev.timer_status k zero_timer_status)

-- What a successful write does to the table, at the device that it finds.
at-put :
    (dev_id : ℕ) (timer : Timer) (w : World) (dev : Dev) (j k : ℕ)
    → All IsSized w.cb.queue
    → find_dev w.cb.queue dev_id ≡ some dev
    → ltb timer.id max_timer_num ≡ true
    → timer_at (write_timer dev_id (put_timer timer) w) j k
      ≡ put_at dev_id timer.id (some timer) (timer_at w) j k
unfolding get_dev_timer write_timer put_timer
at-put dev_id timer w dev j k sized e h = ground (
  arith,
  find_dev-All IsSized w.cb.queue dev_id dev sized e,
  find_dev-update_dev w.cb.queue dev_id j (put_timer timer) (λ d. refl),
  get_or-set dev.timer timer.id k timer zero_timer,
  get_or-set dev.timer_status timer.id k (record { active = true; expired = false })
      zero_timer_status,
)

at-clear :
    (dev_id i : ℕ) (w : World) (dev : Dev) (j k : ℕ)
    → All IsSized w.cb.queue
    → find_dev w.cb.queue dev_id ≡ some dev
    → ltb i max_timer_num ≡ true
    → timer_at (write_timer dev_id (clear_timer i) w) j k ≡ put_at dev_id i none (timer_at w) j k
unfolding get_dev_timer write_timer clear_timer
at-clear dev_id i w dev j k sized e h = ground (
  arith,
  find_dev-All IsSized w.cb.queue dev_id dev sized e,
  find_dev-update_dev w.cb.queue dev_id j (clear_timer i) (λ d. refl),
  get_or-set dev.timer i k zero_timer zero_timer,
  get_or-set dev.timer_status i k zero_timer_status zero_timer_status,
)

-- While the arrays of the online devices have their lengths: setting a timer succeeds exactly if
-- the device is present and the slot is in range, and then changes the table at that place only,
-- to the timer given; else the table stays as it is.
pub at-set_dev_timer :
    (dev_id : ℕ) (timer : Timer) (w : World) (j k : ℕ)
    → All IsSized w.cb.queue
    → let (ret, w') = set_dev_timer dev_id timer w in
      (ret ≡ (
        if is_some (find_dev w.cb.queue dev_id) && ltb timer.id max_timer_num
        then Error.ok
        else Error.bad_param))
      × (timer_at w' j k ≡ (
          if ret == Error.ok
          then put_at dev_id timer.id (some timer) (timer_at w) j k
          else timer_at w j k))
unfolding set_dev_timer
at-set_dev_timer dev_id timer w j k sized = elim (Option-cases (find_dev w.cb.queue dev_id)) [
  | inl e ↦ ground arith
  | inr (dev, e) ↦ ground (arith, at-put dev_id timer w dev j k sized e)
]

-- While the arrays of the online devices have their lengths: deleting a timer succeeds exactly if
-- one is set at that place, and then empties that place only; else the table stays as it is.
pub at-del_dev_timer :
    (dev_id i : ℕ) (w : World) (j k : ℕ)
    → All IsSized w.cb.queue
    → let (ret, w') = del_dev_timer dev_id i w in
      (ret ≡ (if is_some (timer_at w dev_id i) then Error.ok else Error.bad_param))
      × (timer_at w' j k
          ≡ (if ret == Error.ok then put_at dev_id i none (timer_at w) j k else timer_at w j k))
unfolding del_dev_timer get_dev_timer
at-del_dev_timer dev_id i w j k sized = elim (Option-cases (find_dev w.cb.queue dev_id)) [
  | inl e ↦ ground arith
  | inr (dev, e) ↦ ground (arith, at-clear dev_id i w dev j k sized e)
]

-- The arrays keep their lengths.
pub set_dev_timer-IsSized :
    (dev_id : ℕ) (timer : Timer) (w : World)
    → All IsSized w.cb.queue
    → All IsSized (set_dev_timer dev_id timer w).1.cb.queue
unfolding set_dev_timer write_timer
set_dev_timer-IsSized dev_id timer w sized = ground (
  arith,
  update_dev-All IsSized w.cb.queue dev_id (put_timer timer) (put_timer-IsSized timer) sized,
)

pub del_dev_timer-IsSized :
    (dev_id i : ℕ) (w : World)
    → All IsSized w.cb.queue
    → All IsSized (del_dev_timer dev_id i w).1.cb.queue
unfolding del_dev_timer write_timer
del_dev_timer-IsSized dev_id i w sized =
    ground (
      arith,
      update_dev-All IsSized w.cb.queue dev_id (clear_timer i) (clear_timer-IsSized i) sized,
    )
