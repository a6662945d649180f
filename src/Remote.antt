-- ===== src/Remote.antt =====
-- core_daemon/remote_ctl.h and core_daemon/remote_ctl.c: the keys of a remote control and the codes
-- that a remote driver sends for them.
pub mod Laws
mod Tests
use hsbsw.Prelude.{
  ℕ, zero, suc, ◌+◌, ◌*◌, ◌/◌, List, [], ◌∷◌, Option, none, some, ◌==◌, if◌then◌else◌, get_elem?,
}
use hsbsw.Codes.Error
use hsbsw.Codes.{act_type_remote_control}
use hsbsw.Device.Types.{Action}

-- HSB_REMOTE_KEY_INVALID, the end mark of a key map
abbrev pub key_invalid : ℕ
key_invalid = 255

-- HSB_KEY_MAP_T
pub record KeyMap : Type 0 where
  pub key : ℕ
  pub bytes : List ℕ

abbrev pub entry : ℕ → ℕ → KeyMap
entry key b = record { key = key; bytes = b ∷ 0 ∷ 0 ∷ 0 ∷ [] }

abbrev pub cochip_n9201_key_map : List KeyMap
cochip_n9201_key_map =
    entry 0 0x30
    ∷ entry 1 0x31
    ∷ entry 2 0x32
    ∷ entry 3 0x33
    ∷ entry 4 0x34
    ∷ entry 5 0x35
    ∷ entry 6 0x36
    ∷ entry 7 0x37
    ∷ entry 8 0x38
    ∷ entry 9 0x39
    ∷ entry 10 0x43
    ∷ entry 11 0x42
    ∷ entry key_invalid 0
    ∷ []

-- HSB_REMOTE_DRIVER_T; `none` for the map is NULL.
pub record RemoteDriver : Type 0 where
  pub id : ℕ
  pub data_len : ℕ
  pub key_map : Option (List KeyMap)

abbrev pub remote_drv : List RemoteDriver
remote_drv =
    record { id = 0; data_len = 1; key_map = some cochip_n9201_key_map }
    ∷ record { id = 1; data_len = 2; key_map = none }
    ∷ record { id = 2; data_len = 3; key_map = none }
    ∷ []

-- `memcpy(&p, bytes, n)` on a little-endian uint32_t p: its n low bytes are overwritten.
unfoldable pub copy_low : ℕ → List ℕ → ℕ → ℕ
copy_low zero bytes p = p
copy_low (suc n) [] p = p
copy_low (suc n) (b ∷ bytes) p = b + 256 * copy_low n bytes (p / 256)

-- The `while` loop; it stops at the end mark.
unfoldable pub map_key : ℕ → ℕ → ℕ → List KeyMap → Action → ℕ × Action
unfolding copy_low
map_key drvid data_len key [] act = (Error.others, act)
map_key drvid data_len key (k ∷ ks) act =
    let rest = map_key drvid data_len key ks act in
    if k.key == key_invalid
    then (Error.others, act)
    else if k.key == key
    then (
      Error.ok,
      record act {
        id = act_type_remote_control;
        param1 = drvid;
        param2 = copy_low data_len k.bytes act.param2;
      },
    )
    else rest

unfoldable pub remote_key_mapping : ℕ → ℕ → Action → ℕ × Action
unfolding map_key
remote_key_mapping drvid key act = elim (get_elem? remote_drv drvid) [
  | none ↦ (Error.bad_param, act)
  | some pdrv ↦ elim pdrv.key_map [
    | none ↦ (Error.ok, record act { id = act_type_remote_control; param1 = drvid; param2 = key })
    | some key_map ↦ map_key drvid pdrv.data_len key key_map act
  ]
]
