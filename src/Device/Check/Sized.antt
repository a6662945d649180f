-- ===== src/Device/Check/Sized.antt =====
-- `check_timer_and_delay` of core_daemon/device.c and each device's id, the lengths of its arrays, its
-- driver, and its delays.
use hsbsw.Prelude.{
  ℕ, suc, ◌≡◌, ◌≢◌, none, refl, List, [], ◌∷◌, All, arith, Bool-cases, inl, inr, check_bit, length,
}
use hsbsw.Device.Types.{Timer, TimerStatus, Dev, AsyncCtl, DeviceCb}
use hsbsw.Device.Slots.{IsSized}
use hsbsw.Device.Find.{get_dev_id_list}
use hsbsw.Device.Check.{
  Now, sec_of_day, renew_timers, timer_loop, check_day, check_due, check_dev, check_all,
}
use hsbsw.Device.Check.Day.{NotStarted, delay_loop_idle}

length-renew :
    (wday : ℕ) (tms : List Timer) (sts : List TimerStatus)
    → length (renew_timers wday tms sts) ≡ length sts
unfolding renew_timers
length-renew wday (tm ∷ tms) (st ∷ sts) = omega (arith, length-renew wday tms sts)
length-renew wday [] sts = refl
length-renew wday (tm ∷ tms) [] = refl

length-timer_loop :
    (devid mode wday sec : ℕ) (tms : List Timer) (sts : List TimerStatus) (c : AsyncCtl)
    → let r = timer_loop devid mode wday sec tms sts c in
      (length r.timer ≡ length tms) × (length r.timer_status ≡ length sts)
unfolding timer_loop
length-timer_loop devid mode wday sec (tm ∷ tms) (st ∷ sts) c =
    omega (arith, length-timer_loop devid mode wday sec tms sts)
length-timer_loop devid mode wday sec [] sts c = (refl, refl)
length-timer_loop devid mode wday sec (tm ∷ tms) [] c = (refl, refl)

-- A device as the program keeps it.
pub record IsGood (dev : Dev) : Type 0 where
  pub sized : IsSized dev
  pub idle : All NotStarted dev.delay_status
  pub owned : dev.driver ≢ none

check_day-IsGood : (t : Now) (last : ℕ) (pdev : Dev) → IsGood pdev → IsGood (check_day t last pdev)
unfolding check_day
check_day-IsGood t last pdev g = ground (arith, length-renew t.tm_wday pdev.timer pdev.timer_status)

check_due-IsGood :
    (t : Now) (mode : ℕ) (pdev : Dev) (c : AsyncCtl)
    → IsGood pdev
    → IsGood (check_due t mode pdev c).0
unfolding check_due
check_due-IsGood t mode pdev c g = ground (
  arith,
  length-timer_loop pdev.id mode t.tm_wday (sec_of_day t) pdev.timer pdev.timer_status c,
  delay_loop_idle pdev.id mode t.now pdev.delay pdev.delay_status
      (timer_loop pdev.id mode t.tm_wday (sec_of_day t) pdev.timer pdev.timer_status c).async,
)

pub check_dev-IsGood :
    (t : Now) (pdev : Dev) (cb : DeviceCb) → IsGood pdev → IsGood (check_dev t pdev cb).0
unfolding check_dev
check_dev-IsGood t pdev cb g =
    let today = check_day-IsGood t cb.sec_today pdev g in
    elim (Bool-cases (check_bit pdev.work_mode cb.work_mode)) [
      | inl e ↦
          rw e (check_due-IsGood t cb.work_mode (check_day t cb.sec_today pdev) cb.async today)
      | inr e ↦ rw e today
    ]

pub check_all-IsGood :
    (clock : ℕ → Now) (i : ℕ) (q : List Dev) (cb : DeviceCb)
    → All IsGood q
    → All IsGood (check_all clock i q cb).0
unfolding check_all
check_all-IsGood clock i [] cb g = tt
check_all-IsGood clock i (pdev ∷ q) cb g =
    (check_dev-IsGood (clock i) pdev cb g.0, check_all-IsGood clock (suc i) q _ g.1)

id-check_dev :
    (t : Now) (pdev : Dev) (cb : DeviceCb)
    → ((check_dev t pdev cb).0.id ≡ pdev.id)
      × ((check_dev t pdev cb).1.offq ≡ cb.offq)
      × ((check_dev t pdev cb).1.dev_id ≡ cb.dev_id)
      × ((check_dev t pdev cb).1.driverq ≡ cb.driverq)
unfolding check_dev check_day check_due
id-check_dev t pdev cb = ground arith

-- No device comes, goes or moves.
pub ids-check_all :
    (clock : ℕ → Now) (i : ℕ) (q : List Dev) (cb : DeviceCb)
    → (get_dev_id_list (check_all clock i q cb).0 ≡ get_dev_id_list q)
      × ((check_all clock i q cb).1.offq ≡ cb.offq)
      × ((check_all clock i q cb).1.dev_id ≡ cb.dev_id)
      × ((check_all clock i q cb).1.driverq ≡ cb.driverq)
unfolding check_all get_dev_id_list
ids-check_all clock i [] cb = (refl, refl, refl, refl)
ids-check_all clock i (pdev ∷ q) cb = ground (
  arith,
  id-check_dev (clock i) pdev cb,
  ids-check_all clock (suc i) q (check_dev (clock i) pdev cb).1,
)
