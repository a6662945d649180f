-- ===== src/Device/Check/Day.antt =====
-- The new day in `_check_dev_timer_and_delay` of core_daemon/device.c, and its delays.
use hsbsw.Prelude.{ℕ, suc, ◌≡◌, refl, ◌≤◌, false, not, List, [], ◌∷◌, ◌&&◌, All, arith}
use hsbsw.Device.Types.{Timer, TimerStatus, Delay, DelayStatus, Dev, AsyncCtl, DeviceCb, World}
use hsbsw.Device.Check.{
  Now, sec_of_day, timer_due, timer_loop, delay_due, delay_loop, check_day, check_due, check_dev,
  check_all, check_timer_and_delay,
}

-- A timer that cannot go off before it is renewed or set.
abbrev pub IsAsleep : TimerStatus → Type 0
IsAsleep st = (st.active && not st.expired) ≡ false

abbrev pub NotStarted : DelayStatus → Type 0
NotStarted st = st.started ≡ false

pub timer_loop_asleep :
    (devid mode wday sec : ℕ) (tms : List Timer) (sts : List TimerStatus) (c : AsyncCtl)
    → All IsAsleep sts
    → timer_loop devid mode wday sec tms sts c
      ≡ record { timer = tms; timer_status = sts; async = c }
unfolding timer_loop timer_due
timer_loop_asleep devid mode wday sec (tm ∷ tms) (st ∷ sts) c h =
    ground (arith, timer_loop_asleep devid mode wday sec tms sts c h.1)
timer_loop_asleep devid mode wday sec [] sts c h = refl
timer_loop_asleep devid mode wday sec (tm ∷ tms) [] c h = refl

-- The delay loop leaves everything as it is where no delay has been started.
pub delay_loop_idle :
    (devid mode now : ℕ) (dls : List Delay) (sts : List DelayStatus) (c : AsyncCtl)
    → All NotStarted sts
    → delay_loop devid mode now dls sts c ≡ record { delay_status = sts; async = c }
unfolding delay_loop delay_due
delay_loop_idle devid mode now (dl ∷ dls) (st ∷ sts) c h =
    ground (arith, delay_loop_idle devid mode now dls sts c h.1)
delay_loop_idle devid mode now [] sts c h = refl
delay_loop_idle devid mode now (dl ∷ dls) [] c h = refl

pub record IsIdle (dev : Dev) : Type 0 where
  pub timers : All IsAsleep dev.timer_status
  pub delays : All NotStarted dev.delay_status

check_dev_idle :
    (t : Now) (pdev : Dev) (cb : DeviceCb)
    → IsIdle pdev
    → cb.sec_today ≤ sec_of_day t
    → check_dev t pdev cb ≡ (pdev, record cb { sec_today = sec_of_day t })
unfolding check_dev check_day check_due
check_dev_idle t pdev cb idle later = ground (
  arith,
  timer_loop_asleep pdev.id cb.work_mode t.tm_wday (sec_of_day t) pdev.timer pdev.timer_status
      cb.async,
  delay_loop_idle pdev.id cb.work_mode t.now pdev.delay pdev.delay_status cb.async,
)

module _ (clock : ℕ → Now)
    (forward : (k : ℕ) → sec_of_day (clock k) ≤ sec_of_day (clock (suc k))) where
  check_all_idle :
      (i : ℕ) (q : List Dev) (cb : DeviceCb)
      → All IsIdle q
      → cb.sec_today ≤ sec_of_day (clock i)
      → ((check_all clock i q cb).0 ≡ q) × ((check_all clock i q cb).1.async ≡ cb.async)
  unfolding check_all
  check_all_idle i [] cb idle later = (refl, refl)
  check_all_idle i (pdev ∷ q) cb idle later = ground (
    arith,
    check_dev_idle (clock i) pdev cb idle.0 later,
    forward i,
    check_all_idle (suc i) q (record cb { sec_today = sec_of_day (clock i) }) idle.1 (forward i),
  )

  sec_today-check_dev :
      (t : Now) (pdev : Dev) (cb : DeviceCb) → (check_dev t pdev cb).1.sec_today ≡ sec_of_day t
  unfolding check_dev
  sec_today-check_dev t pdev cb = ground arith

  check_all_first :
      (p : List Dev) (first : Dev) (q : List Dev) (cb : DeviceCb)
      → p ≡ first ∷ q
      → All IsIdle q
      → let (first', cb') = check_dev (clock 0) first cb in
        ((check_all clock 0 p cb).0 ≡ first' ∷ q) × ((check_all clock 0 p cb).1.async ≡ cb'.async)
  unfolding check_all
  check_all_first p first q cb e idle = rw e (
      ground (
        arith,
        forward 0,
        sec_today-check_dev (clock 0) first cb,
        check_all_idle 1 q (check_dev (clock 0) first cb).1 idle,
      ))

  -- Only the first device of the queue sees the new day: its callback moves `sec_today` on, so where
  -- the readings of the clock during the check do not pass midnight, the timers of the other devices
  -- have expired and none of their delays is started, the check leaves those devices as they are
  -- and asks for nothing on their behalf, whatever the time of the last check was.
  pub check_timer_and_delay_first :
      (first : Dev) (q : List Dev) (w : World)
      → w.cb.queue ≡ first ∷ q
      → All IsIdle q
      → let w' = (check_timer_and_delay clock w).1 in
        let (first', cb) = check_dev (clock 0) first w.cb in
        (w'.cb.queue ≡ first' ∷ q) × (w'.cb.async ≡ cb.async)
  unfolding check_timer_and_delay
  check_timer_and_delay_first first q w e idle = check_all_first w.cb.queue first q w.cb e idle
