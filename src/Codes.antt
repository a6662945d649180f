-- ===== src/Codes.antt =====
-- The numeric codes of the headers: include/hsb_error.h, include/hsb_device.h and
-- include/net_protocol.h. A C enum value is the number that it stands for; an `int` result of the
-- device and network modules is one of the error codes, or the bit pattern of -1.
pub mod Error
pub mod WorkMode
pub mod EvtType
pub mod Updated
pub mod Cmd
use hsbsw.Prelude.{ℕ}

-- The pattern of the `int` -1.
abbrev pub minus_one : ℕ
minus_one = 0xffff_ffff

-- HSB_STATUS_TYPE_T, the members that the core uses
abbrev pub status_type_work_mode : ℕ
status_type_work_mode = 4

-- HSB_ACTION_TYPE_T
abbrev pub act_type_remote_control : ℕ
act_type_remote_control = 1
