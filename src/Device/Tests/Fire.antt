-- ===== src/Device/Tests/Fire.antt =====
-- The timers of core_daemon/device.c that go off.
use hsbsw.Prelude.{◌≡◌, refl, ap, [], ◌∷◌, none, arith, check_bit}
use hsbsw.Device.Types.{do_action, AsyncCtl}
use hsbsw.Device.Check.{timer_due, timer_loop, check_dev, check_timer_and_delay}
use hsbsw.Device.Check.Fire.{timer_loop-queue}
use hsbsw.Device.Check.Day.{check_timer_and_delay_first}
use hsbsw.Device.Tests.Box.{dev, armed, box, monday, zeros-NotStarted}

timer_loop-queue_example :
    (timer_loop 3 0 1 30602 armed.timer armed.timer_status box.cb.async).async.data_queue
    ≡ record {
      body = do_action (record { devid = 3; id = 5; param1 = 6; param2 = 7 });
      reply = none;
    }
      ∷ []
unfolding timer_due check_bit
timer_loop-queue_example =
    ap (λ (c : AsyncCtl). c.data_queue)
      (timer_loop-queue 3 0 1 30602 armed.timer armed.timer_status box.cb.async refl)

check_timer_and_delay_first_example :
    let w' = (check_timer_and_delay monday box).1 in
    let (first', cb) = check_dev (monday 0) armed box.cb in
    (w'.cb.queue ≡ first' ∷ dev 2 ∷ []) × (w'.cb.async ≡ cb.async)
check_timer_and_delay_first_example =
    check_timer_and_delay_first monday (λ k. omega arith) armed (dev 2 ∷ []) box refl
      (record { timers = ground arith; delays = zeros-NotStarted }, tt)
