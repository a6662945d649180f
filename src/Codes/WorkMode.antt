-- ===== src/Codes/WorkMode.antt =====
-- `HSB_WORK_MODE_T`, `HSB_WORK_MODE_VALID` and `HSB_WORK_MODE_ALL` of include/hsb_device.h.
use hsbsw.Prelude.{ℕ, Bool, ltb, leb, ◌&&◌}

abbrev pub home : ℕ
home = 0

abbrev pub outside : ℕ
outside = 1

abbrev pub guard : ℕ
guard = 2

abbrev pub last : ℕ
last = 3

abbrev pub all : ℕ
all = 0xff

-- The lower bound of the macro is 0, which every number meets.
abbrev pub valid : ℕ → Bool
valid x = leb home x && ltb x last
