-- ===== src/Codes/Updated.antt =====
-- `HSB_DEV_UPDATED_TYPE_T` of include/hsb_device.h.
use hsbsw.Prelude.{ℕ}

abbrev pub offline : ℕ
offline = 0

abbrev pub new_add : ℕ
new_add = 1

abbrev pub online : ℕ
online = 2
