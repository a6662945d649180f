-- ===== src/Device/Check/Fire.antt =====
-- What the timer loop of core_daemon/device.c asks for, and how often.
use hsbsw.Prelude.{
  ℕ, ◌+◌, ◌*◌, Bool, leb, ◌&&◌, not, ◌≡◌, refl, true, false, List, [], ◌∷◌, ◌++◌, none,
  if◌then◌else◌, check_bit, arith, Bool-cases, inl, inr,
}
use mathlib.Core.List.{append_assoc, append-nil}
use hsbsw.Device.Types.{Act, set_status, do_action, Timer, TimerStatus, AsyncCtl}
use hsbsw.Device.Async.{set_dev_action_async, set_dev_status_async}
use hsbsw.Device.Check.{timer_act, timer_due, sec_timer, fired, timer_loop}

-- The request of a timer of device `devid`, for which no client waits.
abbrev pub timer_request : ℕ → Timer → Act
timer_request devid tm =
    if check_bit tm.flag 0
    then record {
      body = do_action (record {
        devid = devid;
        id = tm.act_id;
        param1 = tm.act_param1;
        param2 = tm.act_param2;
      });
      reply = none;
    }
    else record {
      body =
          set_status
            (record { devid = devid; num = 1; id = tm.act_id ∷ []; val = tm.act_param1 ∷ [] });
      reply = none;
    }

-- An active timer goes off in the modes of its mode bits and on the days whose bits its weekday byte
-- has, bit 0 for Sunday to bit 6 for Saturday as `tm_wday` counts them, from its time on until five
-- seconds later, if it is not expired.
abbrev pub goes_off : ℕ → ℕ → ℕ → Timer → TimerStatus → Bool
goes_off mode wday sec tm st =
    let start = tm.hour * 3600 + tm.min * 60 + tm.sec in
    (st.active && not st.expired)
    && (check_bit tm.work_mode mode && check_bit tm.wday wday)
    && (leb start sec && leb sec (start + 5))

-- The requests of the timers that go off, in the order of their slots.
abbrev pub due_requests : ℕ → ℕ → ℕ → ℕ → List Timer → List TimerStatus → List Act
due_requests devid mode wday sec (tm ∷ tms) (st ∷ sts) =
    if goes_off mode wday sec tm st
    then timer_request devid tm ∷ due_requests devid mode wday sec tms sts
    else due_requests devid mode wday sec tms sts
due_requests devid mode wday sec tms sts = []

timer_due-goes_off :
    (mode wday sec : ℕ) (tm : Timer) (st : TimerStatus)
    → timer_due mode wday sec tm st ≡ goes_off mode wday sec tm st
unfolding timer_due sec_timer
timer_due-goes_off mode wday sec tm st = ground arith

timer_act-queue :
    (devid : ℕ) (tm : Timer) (c : AsyncCtl)
    → c.mem ≡ true
    → timer_act devid tm c ≡ record c { data_queue = c.data_queue ++ (timer_request devid tm ∷ []) }
unfolding timer_act set_dev_action_async set_dev_status_async
timer_act-queue devid tm c h = ground arith

-- While there is memory, the timer loop queues one request for each timer that is active and not
-- expired, has the bit of the work mode and the bit of `tm_wday`, which is 0 on Sundays, and is between
-- 0 and 5 seconds past its time; in the order of the slots and behind what was queued, and nothing
-- else.
pub timer_loop-queue :
    (devid mode wday sec : ℕ) (tms : List Timer) (sts : List TimerStatus) (c : AsyncCtl)
    → c.mem ≡ true
    → (timer_loop devid mode wday sec tms sts c).async
      ≡ record c { data_queue = c.data_queue ++ due_requests devid mode wday sec tms sts }
unfolding timer_loop
timer_loop-queue devid mode wday sec (tm ∷ tms) (st ∷ sts) c h =
    elim (Bool-cases (timer_due mode wday sec tm st)) [
      | inl due ↦ ground (
        arith,
        timer_due-goes_off mode wday sec tm st,
        timer_act-queue devid tm c h,
        timer_loop-queue devid mode wday sec tms sts (timer_act devid tm c),
        append_assoc c.data_queue (timer_request devid tm ∷ [])
            (due_requests devid mode wday sec tms sts),
      )
      | inr not_due ↦ ground (
        arith,
        timer_due-goes_off mode wday sec tm st,
        timer_loop-queue devid mode wday sec tms sts c h,
      )
    ]
timer_loop-queue devid mode wday sec [] sts c h = ground (arith, append-nil c.data_queue)
timer_loop-queue devid mode wday sec (tm ∷ tms) [] c h = ground (arith, append-nil c.data_queue)

-- Once it has gone off, a timer is not due at any time of any day, in any mode.
not_due-fired :
    (mode wday sec mode' wday' sec' : ℕ) (tm : Timer) (st : TimerStatus)
    → timer_due mode wday sec tm st ≡ true
    → timer_due mode' wday' sec' (fired tm st).0 (fired tm st).1 ≡ false
unfolding timer_due fired
not_due-fired mode wday sec mode' wday' sec' tm st h = ground arith

-- A second run of the timer loop at the same time changes nothing: no timer goes off twice.
pub timer_loop_twice :
    (devid mode wday sec : ℕ) (tms : List Timer) (sts : List TimerStatus) (c c' : AsyncCtl)
    → let once = timer_loop devid mode wday sec tms sts c in
      timer_loop devid mode wday sec once.timer once.timer_status c' ≡ record once { async = c' }
unfolding timer_loop
timer_loop_twice devid mode wday sec (tm ∷ tms) (st ∷ sts) c c' =
    elim (Bool-cases (timer_due mode wday sec tm st)) [
      | inl due ↦ ground (
        arith,
        not_due-fired mode wday sec mode wday sec tm st due,
        timer_loop_twice devid mode wday sec tms sts (timer_act devid tm c) c',
      )
      | inr not_due ↦ ground (arith, timer_loop_twice devid mode wday sec tms sts c c')
    ]
timer_loop_twice devid mode wday sec [] sts c c' = refl
timer_loop_twice devid mode wday sec (tm ∷ tms) [] c c' = refl
