-- ===== src/Zigbee.antt =====
-- The ZigBee driver, core_daemon/driver_cg_zigbee.c: its list of devices, the memory that its threads
-- share, and what the devices report.
pub mod Ops
pub mod Frame
pub mod Bytes
pub mod Cases
pub mod Steps
pub mod Answers
pub mod Requests
pub mod Bounds
mod Tests
use hsbsw.Prelude.{
  ℕ, ◌+◌, ◌-◌, ◌^◌, Bool, true, false, List, [], ◌∷◌, ◌++◌, Option, none, some, ◌==◌, ltb, leb, not,
  ◌&&◌, if◌then◌else◌,
}
use hsbsw.Codes.{minus_one}
use hsbsw.Codes.Error
use hsbsw.Codes.WorkMode
use hsbsw.Device.Types.{Status, Info, Drv, World, sample_op, cz_drv_op}
use hsbsw.Device.Event.{
  dev_status_updated, dev_sensor_triggered, dev_sensor_recovered, dev_ir_key, set_box_work_mode,
}
use hsbsw.Device.Registry.{same_bytes, dev_online, register_dev_drv}
use hsbsw.Network.Field.{Buf, ◌>>=◌, get_u8, get_u16, get_u32, advance}

abbrev pub cz_header_magic : ℕ
cz_header_magic = 0x55aa

abbrev pub cz_header_len : ℕ
cz_header_len = 12

abbrev pub cz_default_ep : ℕ
cz_default_ep = 10

-- The part of HSB_DEVICE_DRIVER_CONTEXT_T that the request and its answer share.
pub record CzCtl : Type 0 where
  pub is_waiting : Bool
  pub send_buf : Buf
  pub recv_buf : Buf
  pub send_len : ℕ
  pub recv_len : ℕ
  pub trans_id : ℕ

-- CZ_INFO_T
pub record CzInfo : Type 0 where
  pub dev_class : ℕ
  pub interface : ℕ
  pub mac : List ℕ
  pub status_bm : ℕ
  pub event_bm : ℕ
  pub action_bm : ℕ

-- CZ_DEV_T
pub record CzDev : Type 0 where
  pub id : ℕ
  pub short_addr : ℕ
  pub end_point : ℕ
  pub idle_time : ℕ
  pub info : CzInfo

-- `gl_ctx`, with the state of the rest of the program.
pub record CzBox : Type 0 where
  pub queue : List CzDev
  pub ctl : CzCtl
  pub world : World

abbrev pub cz_drv : Drv
cz_drv = record { name = "cg zigbee"; id = 2; op = some cz_drv_op }

unfoldable pub cz_find_by_mac : List CzDev → List ℕ → Option CzDev
cz_find_by_mac [] mac = none
cz_find_by_mac (pdev ∷ q) mac =
    if same_bytes pdev.info.mac mac then some pdev else cz_find_by_mac q mac

unfoldable pub cz_find_by_id : List CzDev → ℕ → Option CzDev
cz_find_by_id [] devid = none
cz_find_by_id (pdev ∷ q) devid = if devid == pdev.id then some pdev else cz_find_by_id q devid

unfoldable pub cz_find_by_short_addr : List CzDev → ℕ → Option CzDev
cz_find_by_short_addr [] short_addr = none
cz_find_by_short_addr (pdev ∷ q) short_addr =
    if short_addr == pdev.short_addr then some pdev else cz_find_by_short_addr q short_addr

abbrev pub cz_dev_info : CzInfo → Info
cz_dev_info info = record { cls = info.dev_class; interface = info.interface; mac = info.mac }

-- `_register_device`; `none` is a fault of `dev_online`.
unfoldable pub cz_register_device : ℕ → ℕ → CzInfo → CzBox → Option (ℕ × CzBox)
cz_register_device short_addr end_point info b = elim (cz_find_by_mac b.queue info.mac) [
  | some pdev ↦ some (Error.ok, b)
  | none ↦ do
    (ret, devid, w) ← dev_online cz_drv.id (cz_dev_info info) sample_op b.world
    let new : CzDev = record {
      id = devid;
      short_addr = short_addr;
      end_point = end_point;
      idle_time = 0;
      info = info;
    }
    some (
        if not (ret == Error.ok)
        then (ret, record b { world = w })
        else if w.cb.async.mem
        then (0, record b { queue = b.queue ++ (new ∷ []); world = w })
        else (Error.no_memory, record b { world = w }))
]

-- `_key`
unfoldable pub cz_key : ℕ → World → ℕ × World
cz_key key w =
    if key == WorkMode.home
    then set_box_work_mode key w
    else if key == WorkMode.outside
    then set_box_work_mode key w
    else if key == WorkMode.guard
    then set_box_work_mode key w
    else (Error.others, w)

-- `_event`: the state; what it returns is not used.
unfoldable pub cz_event : ℕ → ℕ → ℕ → ℕ → World → World
cz_event devid id param param2 w =
    if id == 0
    then dev_sensor_triggered devid param w
    else if id == 1
    then dev_sensor_recovered devid param w
    else if id == 2
    then (cz_key param w).1
    else if id == 3
    then dev_ir_key devid param param2 w
    else w

-- `_status_updated`
unfoldable pub cz_status_updated : ℕ → ℕ → ℕ → World → World
cz_status_updated devid id val =
    dev_status_updated devid (record { devid = devid; num = 1; id = id ∷ []; val = val ∷ [] })

-- `open_serial_fd` and `pthread_create` succeed or fail; a result of -1 is its 32-bit pattern.
unfoldable pub init_cz_drv : Bool → Bool → CzBox → ℕ × CzBox
init_cz_drv opens starts b =
    let begun : CzBox = record b { queue = []; ctl = record (b.ctl) { trans_id = 1 } } in
    let (ret, cb) = register_dev_drv (some cz_drv) b.world.cb in
    if not opens
    then (Error.others, record b { queue = [] })
    else if not starts
    then (minus_one, begun)
    else (ret, record begun { world = record (b.world) { cb = cb } })
