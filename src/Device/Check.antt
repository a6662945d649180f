-- ===== src/Device/Check.antt =====
-- `check_timer_and_delay` and `_check_dev_timer_and_delay` of core_daemon/device.c, which the main
-- loop of core_daemon/core_daemon.c calls about once a second.
pub mod Fire
pub mod Day
pub mod Sized
use hsbsw.Prelude.{
  ℕ, suc, ◌+◌, ◌-◌, ◌*◌, ◌%◌, ◌^◌, Bool, true, false, not, List, [], ◌∷◌, none, ◌&&◌, ◌||◌, ltb,
  if◌then◌else◌, check_bit,
}
use hsbsw.Codes.Error
use hsbsw.Device.Types.{
  Timer, TimerStatus, Delay, DelayStatus, Dev, AsyncCtl, DeviceCb, World, zero_timer,
  zero_timer_status,
}
use hsbsw.Device.Async.{set_dev_action_async, set_dev_status_async}

-- One reading of `time` with its `localtime_r`.
pub record Now : Type 0 where
  pub now : ℕ
  pub tm_hour : ℕ
  pub tm_min : ℕ
  pub tm_sec : ℕ
  pub tm_wday : ℕ

unfoldable pub sec_of_day : Now → ℕ
sec_of_day t = t.tm_hour * 3600 + t.tm_min * 60 + t.tm_sec

-- The loop of a new day: an active timer is expired exactly if the day is not one of its days.
unfoldable pub renew_timers : ℕ → List Timer → List TimerStatus → List TimerStatus
renew_timers wday (tm ∷ tms) (st ∷ sts) =
    (if st.active then record st { expired = not (check_bit tm.wday wday) } else st)
    ∷ renew_timers wday tms sts
renew_timers wday tms sts = sts

-- Step 5 of the timer loop: an action if bit 0 of the flag is set, else a status.
unfoldable pub timer_act : ℕ → Timer → AsyncCtl → AsyncCtl
timer_act devid tm c =
    if check_bit tm.flag 0
    then (set_dev_action_async
        (record { devid = devid; id = tm.act_id; param1 = tm.act_param1; param2 = tm.act_param2 })
        none c).1
    else (set_dev_status_async
        (record { devid = devid; num = 1; id = tm.act_id ∷ []; val = tm.act_param1 ∷ [] }) none c).1

unfoldable pub sec_timer : Timer → ℕ
sec_timer tm = tm.hour * 3600 + tm.min * 60 + tm.sec

-- Steps 1 to 4 of the timer loop, with bit `tm_wday` of the weekday byte, bit 0 on a Sunday: does the timer go off at `sec_today`? The second disjunct is
-- reached only if the subtraction does not wrap.
unfoldable pub timer_due : ℕ → ℕ → ℕ → Timer → TimerStatus → Bool
unfolding sec_timer
timer_due work_mode wday sec_today tm st =
    not (not st.active || st.expired)
    && check_bit tm.work_mode work_mode
    && check_bit tm.wday wday
    && not (ltb sec_today (sec_timer tm) || ltb 5 (sec_today - sec_timer tm))

-- After step 5: a one-shot timer is cleared, any other is expired.
unfoldable pub fired : Timer → TimerStatus → Timer × TimerStatus
fired tm st =
    if check_bit tm.wday 7
    then (zero_timer, zero_timer_status)
    else (tm, record st { expired = true })

-- What the timer loop leaves.
pub record Timers : Type 0 where
  pub timer : List Timer
  pub timer_status : List TimerStatus
  pub async : AsyncCtl

unfoldable pub timer_loop : ℕ → ℕ → ℕ → ℕ → List Timer → List TimerStatus → AsyncCtl → Timers
unfolding timer_act timer_due fired
timer_loop devid work_mode wday sec_today (tm ∷ tms) (st ∷ sts) c =
    let due = timer_due work_mode wday sec_today tm st in
    let rest =
      timer_loop devid work_mode wday sec_today tms sts (if due then timer_act devid tm c else c) in
    let slot : Timer × TimerStatus = if due then fired tm st else (tm, st) in
    record {
      timer = slot.0 ∷ rest.timer;
      timer_status = slot.1 ∷ rest.timer_status;
      async = rest.async;
    }
timer_loop devid work_mode wday sec_today tms sts c = record {
  timer = tms;
  timer_status = sts;
  async = c;
}

unfoldable pub delay_act : ℕ → Delay → AsyncCtl → AsyncCtl
delay_act devid dl c =
    if check_bit dl.flag 0
    then (set_dev_action_async
        (record { devid = devid; id = dl.act_id; param1 = dl.act_param1; param2 = dl.act_param2 })
        none c).1
    else (set_dev_status_async
        (record { devid = devid; num = 1; id = dl.act_id ∷ []; val = dl.act_param1 ∷ [] }) none c).1

-- The guards of the delay loop. The target's `time_t` has 32 bits, as `delay_sec` has, so that the
-- comparison is of unsigned 32-bit values.
unfoldable pub delay_due : ℕ → ℕ → Delay → DelayStatus → Bool
delay_due work_mode now dl st =
    not (not st.active || not st.started)
    && check_bit dl.work_mode work_mode
    && not (ltb ((now + 2 ^ 32 - st.start_tm) % 2 ^ 32) dl.delay_sec)

-- What the delay loop leaves.
pub record Delays : Type 0 where
  pub delay_status : List DelayStatus
  pub async : AsyncCtl

unfoldable pub delay_loop : ℕ → ℕ → ℕ → List Delay → List DelayStatus → AsyncCtl → Delays
unfolding delay_act delay_due
delay_loop devid work_mode now (dl ∷ dls) (st ∷ sts) c =
    let due = delay_due work_mode now dl st in
    let rest = delay_loop devid work_mode now dls sts (if due then delay_act devid dl c else c) in
    record {
      delay_status = (if due then record st { started = false } else st) ∷ rest.delay_status;
      async = rest.async;
    }
delay_loop devid work_mode now dls sts c = record { delay_status = sts; async = c }

-- The first part of `_check_dev_timer_and_delay`: the new day.
unfoldable pub check_day : Now → ℕ → Dev → Dev
unfolding renew_timers sec_of_day
check_day t last pdev =
    if ltb (sec_of_day t) last && ltb (sec_of_day t) 10
    then record pdev { timer_status = renew_timers t.tm_wday pdev.timer pdev.timer_status }
    else pdev

-- The two loops of `_check_dev_timer_and_delay`.
unfoldable pub check_due : Now → ℕ → Dev → AsyncCtl → Dev × AsyncCtl
unfolding timer_loop delay_loop sec_of_day
check_due t work_mode pdev c =
    let ts = timer_loop pdev.id work_mode t.tm_wday (sec_of_day t) pdev.timer pdev.timer_status c in
    let ds = delay_loop pdev.id work_mode t.now pdev.delay pdev.delay_status ts.async in
    (
      record pdev {
        timer = ts.timer;
        timer_status = ts.timer_status;
        delay_status = ds.delay_status;
      },
      ds.async,
    )

-- `_check_dev_timer_and_delay`: the device, and what it changes of `gl_dev_cb`.
unfoldable pub check_dev : Now → Dev → DeviceCb → Dev × DeviceCb
unfolding check_day check_due sec_of_day
check_dev t pdev cb =
    let pdev' = check_day t cb.sec_today pdev in
    let cb' = record cb { sec_today = sec_of_day t } in
    if not (check_bit pdev.work_mode cb.work_mode)
    then (pdev', cb')
    else let (pdev'', async) = check_due t cb.work_mode pdev' cb.async in
      (pdev'', record cb' { async = async })

-- `g_queue_foreach`: the callback on each device in turn; `clock i` is what the callback for the
-- i-th device reads.
unfoldable pub check_all : (ℕ → Now) → ℕ → List Dev → DeviceCb → List Dev × DeviceCb
unfolding check_dev
check_all clock i [] cb = ([], cb)
check_all clock i (pdev ∷ q) cb =
    let (pdev', cb') = check_dev (clock i) pdev cb in
    let (q', cb'') = check_all clock (suc i) q cb' in (pdev' ∷ q', cb'')

unfoldable pub check_timer_and_delay : (ℕ → Now) → World → ℕ × World
unfolding check_all
check_timer_and_delay clock w =
    let (queue, cb) = check_all clock 0 w.cb.queue w.cb in
    (Error.ok, record w { cb = record cb { queue = queue } })
