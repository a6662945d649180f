-- ===== src/Device/System.antt =====
-- The box as a whole: every operation of core_daemon/device.c that changes `gl_dev_cb`, as one step
-- between states. Each handler is one step: the program's threads are taken to run them one at a
-- time, which its mutex gives for some of them only.
pub mod Ids
pub mod Invariant
pub mod Writes
pub mod Moves
pub mod Reached
pub mod Return
use hsbsw.Prelude.{ℕ, ◌+◌, ◌^◌, ◌<◌, ◌≡◌, ◌≢◌, true, List, Option, none, some}
use hsbsw.Device.Types.{Act, Timer, Delay, Linkage, Info, OpTable, Drv, AsyncCtl, Client, World}
use hsbsw.Device.Find.{find_drv}
use hsbsw.Device.Event.{dev_event, notify_resp, set_box_work_mode}
use hsbsw.Device.Registry.{register_dev_drv, dev_online, dev_offline, remove_dev}
use hsbsw.Device.Timers.{set_dev_timer, del_dev_timer}
use hsbsw.Device.Delays.{set_dev_delay, del_dev_delay}
use hsbsw.Device.Linkages.{set_dev_linkage, del_dev_linkage}
use hsbsw.Device.Check.{Now, check_timer_and_delay}

-- What may happen next. A driver reports a device only after it has been registered, and ids are
-- handed out only while the counter does not wrap.
pub data Step (w : World) : World → Type 0 where
  sets_timer : (dev_id : ℕ) (timer : Timer) → Step w (set_dev_timer dev_id timer w).1
  dels_timer : (dev_id timer_id : ℕ) → Step w (del_dev_timer dev_id timer_id w).1
  sets_delay : (dev_id : ℕ) (delay : Delay) → Step w (set_dev_delay dev_id delay w).1
  dels_delay : (dev_id delay_id : ℕ) → Step w (del_dev_delay dev_id delay_id w).1
  sets_linkage : (dev_id : ℕ) (link : Linkage) → Step w (set_dev_linkage dev_id link w).1
  dels_linkage : (dev_id link_id : ℕ) → Step w (del_dev_linkage dev_id link_id w).1
  comes :
      (drvid : ℕ) (info : Info) (op : OpTable) (ret devid : ℕ) (w' : World)
      → find_drv w.cb.driverq drvid ≢ none
      → w.cb.dev_id + 1 < 2 ^ 32
      → dev_online drvid info op w ≡ some (ret, devid, w')
      → Step w w'
  goes : (devid : ℕ) → Step w (dev_offline devid w).1
  removes : (devid : ℕ) → Step w (remove_dev devid w)
  happens : (devid type param1 param2 : ℕ) → Step w (dev_event devid type param1 param2 w)
  sets_mode : (mode : ℕ) → Step w (set_box_work_mode mode w).1
  checks : (clock : ℕ → Now) → Step w (check_timer_and_delay clock w).1
  loads : (drv : Option Drv) → Step w (record w { cb = (register_dev_drv drv w.cb).1 })
  -- The requests, which clients and linkages queue and the worker takes, and the allocator.
  requests : (async : AsyncCtl) → Step w (record w { cb = record (w.cb) { async = async } })
  -- The client contexts, which connections take and release and which are written to.
  connects : (pool : List Client) → Step w (record w { pool = pool })

pub data Reach (w : World) : World → Type 0 where
  here : Reach w w
  next : {u v : World} → Reach w u → Step u v → Reach w v
