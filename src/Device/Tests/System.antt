-- ===== src/Device/Tests/System.antt =====
-- Devices of core_daemon/device.c that go and come back, and a delay.
use hsbsw.Prelude.{◌≡◌, ◌≢◌, refl, true, ◌∷◌, none, some, replicate}
use hsbsw.Codes.Error
use hsbsw.Device.Types.{Dev, World, zero_delay, zero_delay_status, virtual_switch_op}
use hsbsw.Device.Find.{find_dev}
use hsbsw.Device.Delays.{set_dev_delay}
use hsbsw.Device.Check.{delay_loop}
use hsbsw.Device.Registry.{off_search, dev_online, dev_offline}
use hsbsw.Device.System.{Step, Reach}
use hsbsw.Device.System.Invariant.{IsValid}
use hsbsw.Device.System.Reached.{Step-IsValid, delay_never_fires, dev_online_total}
use hsbsw.Device.System.Return.{dev_online-dev_offline}
use hsbsw.Device.Tests.Box.{drv, info, a_delay, dev, armed, box, box-IsValid}

Step-IsValid_example : IsValid (set_dev_delay 2 a_delay box).1.cb
Step-IsValid_example = Step-IsValid box (Step.sets_delay 2 a_delay) box-IsValid

-- Device 2 with the delay set.
abbrev delayed : Dev
delayed = record (dev 2) {
  delay = zero_delay ∷ zero_delay ∷ a_delay ∷ replicate 5 zero_delay;
  delay_status =
      zero_delay_status
      ∷ zero_delay_status
      ∷ record zero_delay_status { active = true }
      ∷ replicate 5 zero_delay_status;
}

delay_never_fires_example :
    delay_loop 2 0 5000 delayed.delay delayed.delay_status box.cb.async
    ≡ record { delay_status = delayed.delay_status; async = box.cb.async }
unfolding set_dev_delay find_dev
delay_never_fires_example =
    delay_never_fires {w = box} {w' = (set_dev_delay 2 a_delay box).1} 2 0 5000 delayed box.cb.async
      box-IsValid (Reach.next Reach.here (Step.sets_delay 2 a_delay)) refl

dev_online_total_example :
    dev_online 1 (info 1) virtual_switch_op (set_dev_delay 2 a_delay box).1 ≢ none
unfolding set_dev_delay
dev_online_total_example =
    dev_online_total {w = box} {w' = (set_dev_delay 2 a_delay box).1} 1 (info 1) virtual_switch_op
      box-IsValid (Reach.next Reach.here (Step.sets_delay 2 a_delay)) refl

dev_online-dev_offline_example :
    let w' = (dev_offline 3 box).1 in
    ((dev_offline 3 box).0 ≡ Error.ok)
    × (find_dev w'.cb.queue 3 ≡ none)
    × ((w'' : World) × (dev_online 1 (info 3) virtual_switch_op w' ≡ some (Error.ok, 3, w''))
        × (find_dev w''.cb.queue 3 ≡ some armed))
unfolding find_dev off_search
dev_online-dev_offline_example =
    dev_online-dev_offline 3 armed drv virtual_switch_op box box-IsValid refl refl refl
