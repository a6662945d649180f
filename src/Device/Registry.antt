-- ===== src/Device/Registry.antt =====
-- Drivers and devices coming and going: `register_dev_drv`, `create_dev`, `register_dev`,
-- `dev_online` and `dev_offline` of core_daemon/device.c.
pub mod Queue
use hsbsw.Prelude.{
  ℕ, suc, ◌+◌, ◌%◌, ◌^◌, Bool, true, false, List, [], ◌∷◌, ◌++◌, Option, none, some, ◌&&◌, ◌==◌,
  if◌then◌else◌,
}
use hsbsw.Codes.Error
use hsbsw.Codes.WorkMode
use hsbsw.Codes.Updated
use hsbsw.Device.Types.{Dev, Drv, Info, OpTable, DeviceCb, World, zero_dev}
use hsbsw.Device.Find.{find_drv}
use hsbsw.Device.Event.{dev_updated}

-- The loop of `register_dev_drv` that looks for the id.
unfoldable pub has_drv : List Drv → ℕ → Bool
has_drv [] id = false
has_drv (pdrv ∷ q) id = if pdrv.id == id then true else has_drv q id

-- `none` for the driver is NULL. What is logged is not modelled: when the id is taken already, the
-- logged format reads the driver's number as the address of a string.
unfoldable pub register_dev_drv : Option Drv → DeviceCb → ℕ × DeviceCb
unfolding has_drv
register_dev_drv none cb = (Error.bad_param, cb)
register_dev_drv (some drv) cb =
    if has_drv cb.driverq drv.id
    then (Error.entry_exists, cb)
    else (Error.ok, record cb { driverq = cb.driverq ++ (drv ∷ []) })

-- `gl_dev_cb.dev_id++` on a uint32_t
unfoldable pub alloc_dev_id : DeviceCb → ℕ × DeviceCb
alloc_dev_id cb = (cb.dev_id, record cb { dev_id = (cb.dev_id + 1) % 2 ^ 32 })

-- `none` is NULL.
unfoldable pub create_dev : DeviceCb → Option Dev × DeviceCb
unfolding alloc_dev_id
create_dev cb =
    if cb.async.mem
    then (
      some (record zero_dev { id = (alloc_dev_id cb).0; work_mode = WorkMode.all }),
      (alloc_dev_id cb).1,
    )
    else (none, cb)

unfoldable pub register_dev : Dev → World → World
register_dev dev w =
    dev_updated dev.id Updated.new_add
      (record w { cb = record (w.cb) { queue = w.cb.queue ++ (dev ∷ []) } })

-- `memcmp(a, b, n) == 0` on two byte arrays of the same length
unfoldable pub same_bytes : List ℕ → List ℕ → Bool
same_bytes [] [] = true
same_bytes [] (y ∷ ys) = false
same_bytes (x ∷ xs) [] = false
same_bytes (x ∷ xs) (y ∷ ys) = (x == y) && same_bytes xs ys

-- How the loop of `dev_online` over the offline queue ends; `fault` is a read through the driver
-- pointer of a device that has no driver.
pub data Search : Type 0 where
  fault missing : Search
  found : ℕ → Dev → Search

unfoldable pub off_search : ℕ → List ℕ → ℕ → List Dev → Search
unfolding same_bytes
off_search drvid mac id [] = Search.missing
off_search drvid mac id (pdev ∷ q) =
    let rest = off_search drvid mac (suc id) q in
    elim pdev.driver [
      | none ↦ Search.fault
      | some drv ↦
          if (drv.id == drvid) && same_bytes pdev.info.mac mac then Search.found id pdev else rest
    ]

-- The queue after `g_queue_pop_nth`.
unfoldable pub pop_nth : List Dev → ℕ → List Dev
pop_nth [] n = []
pop_nth (d ∷ q) n = elim n [ ℕ.zero ↦ q | ℕ.suc k ↦ d ∷ pop_nth q k ]

-- The device that `dev_online` fills in and queues.
unfoldable pub add_filled : ℕ → Info → OpTable → Dev → DeviceCb → World → ℕ × ℕ × World
add_filled drvid info op pdev cb w = (
  Error.ok,
  pdev.id,
  dev_updated pdev.id Updated.new_add (record w {
    cb = record cb {
      queue =
          cb.queue
          ++ (record pdev { driver = find_drv cb.driverq drvid; op = some op; info = info } ∷ []);
    };
  }),
)

-- What `dev_online` does with a device that is not in the offline queue; `none` is a write through
-- the NULL that `create_dev` returned.
unfoldable pub add_new : ℕ → Info → OpTable → World → Option (ℕ × ℕ × World)
unfolding create_dev add_filled
add_new drvid info op w =
    let (o, cb) = create_dev w.cb in
    elim o [ none ↦ none | some pdev ↦ some (add_filled drvid info op pdev cb w) ]

-- What `dev_online` does with the device that it found at place `id` of the offline queue.
unfoldable pub add_back : ℕ → Dev → World → ℕ × ℕ × World
unfolding pop_nth
add_back id pdev w = (
  Error.ok,
  pdev.id,
  dev_updated pdev.id Updated.online (record w {
    cb = record (w.cb) { offq = pop_nth w.cb.offq id; queue = w.cb.queue ++ (pdev ∷ []) };
  }),
)

-- The result, `*devid` and the new state; `none` is a fault.
unfoldable pub dev_online : ℕ → Info → OpTable → World → Option (ℕ × ℕ × World)
unfolding off_search add_new add_back
dev_online drvid info op w = elim (off_search drvid info.mac 0 w.cb.offq) [
  | Search.fault ↦ none
  | Search.missing ↦ add_new drvid info op w
  | Search.found id pdev ↦ some (add_back id pdev w)
]

-- The loop of `dev_offline`: the place of the device, and the device.
unfoldable pub queue_search : ℕ → ℕ → List Dev → Option (ℕ × Dev)
queue_search devid id [] = none
queue_search devid id (pdev ∷ q) =
    let rest = queue_search devid (suc id) q in if pdev.id == devid then some (id, pdev) else rest

unfoldable pub dev_offline : ℕ → World → ℕ × World
unfolding queue_search pop_nth
dev_offline devid w = elim (queue_search devid 0 w.cb.queue) [
  | none ↦ (Error.others, w)
  | some (id, pdev) ↦ (
    Error.ok,
    dev_updated devid Updated.offline (record w {
      cb = record (w.cb) { queue = pop_nth w.cb.queue id; offq = w.cb.offq ++ (pdev ∷ []) };
    }),
  )
]

-- `remove_dev` for a device of the given id; `g_queue_remove` leaves a queue without it as it is.
unfoldable pub remove_dev : ℕ → World → World
unfolding queue_search pop_nth
remove_dev devid w = elim (queue_search devid 0 w.cb.queue) [
  | none ↦ dev_updated devid Updated.offline w
  | some (id, pdev) ↦
      dev_updated devid Updated.offline
        (record w { cb = record (w.cb) { queue = pop_nth w.cb.queue id } })
]
