-- ===== src/Device/Tests/Tables.antt =====
-- Timers that core_daemon/device.c sets and deletes, and a linkage that it sets.
use hsbsw.Prelude.{◌≡◌, none, some}
use hsbsw.Codes.Error
use hsbsw.Device.Find.{find_dev}
use hsbsw.Device.Timers.{get_dev_timer, set_dev_timer, del_dev_timer}
use hsbsw.Device.Timers.Laws.{timer_at, at-set_dev_timer, at-del_dev_timer}
use hsbsw.Device.Linkages.{set_dev_linkage}
use hsbsw.Device.Linkages.Laws.{linkage_at, at-set_dev_linkage}
use hsbsw.Device.Tests.Box.{morning, on_sensor, box, box-IsSized}

at-set_dev_timer_example :
    let (ret, w') = set_dev_timer 2 (record morning { id = 31 }) box in
    (ret ≡ Error.ok) × (timer_at w' 2 31 ≡ some (record morning { id = 31 }))
unfolding find_dev set_dev_timer
at-set_dev_timer_example = at-set_dev_timer 2 (record morning { id = 31 }) box 2 31 box-IsSized

at-del_dev_timer_example :
    let (ret, w') = del_dev_timer 3 0 box in (ret ≡ Error.ok) × (timer_at w' 3 0 ≡ none)
unfolding find_dev get_dev_timer del_dev_timer
at-del_dev_timer_example = at-del_dev_timer 3 0 box 3 0 box-IsSized

at-set_dev_linkage_example :
    let (ret, w') = set_dev_linkage 2 on_sensor box in
    (ret ≡ Error.ok) × (linkage_at w' 2 3 ≡ some on_sensor)
unfolding find_dev set_dev_linkage
at-set_dev_linkage_example = at-set_dev_linkage 2 on_sensor box 2 3 box-IsSized
