-- ===== src/Switch.antt =====
-- The virtual switch driver, core_daemon/driver_virtual_switch.c: its list of devices, their time-outs,
-- and the datagrams that they send.
pub mod Ops
pub mod Laws
pub mod Probe
mod Tests
use hsbsw.Prelude.{
  ℕ, ◌+◌, Bool, true, false, List, [], ◌∷◌, ◌++◌, Option, none, some, ◌==◌, ltb, not, if◌then◌else◌,
  take,
}
use hsbsw.Codes.{minus_one}
use hsbsw.Codes.Error
use hsbsw.Codes.WorkMode
use hsbsw.Device.Types.{Drv, Status, Info, World, virtual_switch_op, virtual_switch_drv_op}
use hsbsw.Device.Event.{
  dev_status_updated, dev_sensor_triggered, dev_sensor_recovered, dev_ir_key, set_box_work_mode,
}
use hsbsw.Device.Registry.{register_dev_drv, same_bytes, dev_online, dev_offline}
use hsbsw.Network.Field.{Buf, ◌>>=◌, get_u16, get_u32}

-- VS_INFO_T
pub record VsInfo : Type 0 where
  pub dev_class : ℕ
  pub interface : ℕ
  pub mac : List ℕ
  pub status_bm : ℕ
  pub event_bm : ℕ
  pub action_bm : ℕ

-- VS_DEV_T
pub record VsDev : Type 0 where
  pub id : ℕ
  pub ip : ℕ
  pub idle_time : ℕ
  pub info : VsInfo

-- `gl_ctx.queue`, with the state of the rest of the program.
pub record VsBox : Type 0 where
  pub queue : List VsDev
  pub world : World

abbrev pub virtual_switch_drv : Drv
virtual_switch_drv = record { name = "virtual switch"; id = 1; op = some virtual_switch_drv_op }

abbrev pub vs_drv_id : ℕ
vs_drv_id = virtual_switch_drv.id

unfoldable pub vs_find_by_ip : List VsDev → ℕ → Option VsDev
vs_find_by_ip [] addr = none
vs_find_by_ip (pdev ∷ q) addr = if pdev.ip == addr then some pdev else vs_find_by_ip q addr

unfoldable pub vs_find_by_mac : List VsDev → List ℕ → Option VsDev
vs_find_by_mac [] mac = none
vs_find_by_mac (pdev ∷ q) mac =
    if same_bytes pdev.info.mac mac then some pdev else vs_find_by_mac q mac

unfoldable pub vs_find_by_id : List VsDev → ℕ → Option VsDev
vs_find_by_id [] devid = none
vs_find_by_id (pdev ∷ q) devid = if devid == pdev.id then some pdev else vs_find_by_id q devid

-- The loop of `_remove_timeout_dev` over the devices from index `id` on, whose devices before `id`
-- stay: what it leaves of them, and the state.
unfoldable pub remove_timeout : List VsDev → World → List VsDev × World
remove_timeout [] w = ([], w)
remove_timeout (pdev ∷ q) w =
    if ltb 10 pdev.idle_time then remove_timeout q (dev_offline pdev.id w).1 else (
      record pdev { idle_time = pdev.idle_time + 1 } ∷ (remove_timeout q w).0,
      (remove_timeout q w).1,
    )

unfoldable pub remove_timeout_dev : VsBox → VsBox
remove_timeout_dev b = record {
  queue = (remove_timeout b.queue b.world).0;
  world = (remove_timeout b.queue b.world).1;
}

-- `pthread_create` succeeds or fails; a result of -1 is its 32-bit pattern.
unfoldable pub init_virtual_switch_drv : Bool → VsBox → ℕ × VsBox
init_virtual_switch_drv starts b =
    let (ret, cb) = register_dev_drv (some virtual_switch_drv) b.world.cb in
    if not starts
    then (minus_one, record b { queue = [] })
    else (ret, record { queue = []; world = record (b.world) { cb = cb } })

-- `memcpy(dev_info.mac, info->mac, 6)` into eight zero bytes.
abbrev pub dev_info : VsInfo → Info
dev_info info = record {
  cls = info.dev_class;
  interface = info.interface;
  mac = take 6 info.mac ++ (0 ∷ 0 ∷ []);
}

-- `_register_device`; `none` is a fault of `dev_online`.
unfoldable pub register_device : ℕ → VsInfo → VsBox → Option (ℕ × VsBox)
register_device addr info b = elim (vs_find_by_mac b.queue info.mac) [
  | some pdev ↦ some (Error.ok, b)
  | none ↦ do
    (ret, devid, w) ← dev_online vs_drv_id (dev_info info) virtual_switch_op b.world
    let new : VsDev = record { id = devid; ip = addr; idle_time = 0; info = info }
    some (
        if not (ret == Error.ok)
        then (ret, record b { world = w })
        else if w.cb.async.mem
        then (0, record { queue = b.queue ++ (new ∷ []); world = w })
        else (Error.no_memory, record b { world = w }))
]

-- `_refresh_device`, a write to the device that `_find_dev_by_ip` found
unfoldable pub refresh_device : List VsDev → ℕ → List VsDev
refresh_device [] addr = []
refresh_device (pdev ∷ q) addr =
    if pdev.ip == addr then record pdev { idle_time = 0 } ∷ q else pdev ∷ refresh_device q addr

-- `_key`
unfoldable pub vs_key : ℕ → World → ℕ × World
vs_key key w =
    if key == WorkMode.home
    then set_box_work_mode key w
    else if key == WorkMode.outside
    then set_box_work_mode key w
    else if key == WorkMode.guard
    then set_box_work_mode key w
    else (Error.others, w)

-- `_event`: the state; what it returns is not used.
unfoldable pub vs_event : ℕ → ℕ → ℕ → ℕ → World → World
vs_event devid id param param2 w =
    if id == 0
    then dev_sensor_triggered devid param w
    else if id == 1
    then dev_sensor_recovered devid param w
    else if id == 2
    then (vs_key param w).1
    else if id == 3
    then dev_ir_key devid param param2 w
    else w

abbrev pub vs_status_changed : ℕ
vs_status_changed = 0x8924

abbrev pub vs_evt : ℕ
vs_evt = 0x8931

-- The `switch` of `_monitor_thread`, with `_status_updated`.
unfoldable pub monitor_switch : ℕ → Buf → ℕ → World → Option World
monitor_switch cmd rbuf devid w =
    let status_changed : Option World = do
      id ← get_u16 rbuf 4
      val ← get_u16 rbuf 6
      some (
          dev_status_updated devid (record { devid = devid; num = 1; id = id ∷ []; val = val ∷ [] })
            w)
    in let evt : Option World = do
      id ← get_u16 rbuf 4
      param ← get_u16 rbuf 6
      param2 ← get_u32 rbuf 8
      some (vs_event devid id param param2 w)
      in if cmd == vs_status_changed then status_changed else if cmd == vs_evt then evt else some w

-- One datagram of `ret` bytes from `addr` in `_monitor_thread`. `probe` is the exchange of
-- `virtual_switch_probe` with the devices, which may register some.
unfoldable pub monitor_packet : (VsBox → VsBox) → ℕ → Buf → ℕ → VsBox → Option VsBox
monitor_packet probe addr rbuf ret b =
    let known : ℕ → VsDev → Option VsBox = λ cmd pdev. do
      w ← monitor_switch cmd rbuf pdev.id b.world
      some (record { queue = refresh_device b.queue addr; world = w })
    in let received : Option VsBox = do
      cmd ← get_u16 rbuf 0
      len ← get_u16 rbuf 2
      if len == ret
          then (elim (vs_find_by_ip b.queue addr) [
            | none ↦ some (probe b)
            | some pdev ↦ known cmd pdev
          ])
          else some b
      in if ltb ret 4 then some b else received
