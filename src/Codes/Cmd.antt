-- ===== src/Codes/Cmd.antt =====
-- `HSB_CMD_T` and `HSB_CMD_VALID` of include/net_protocol.h.
use hsbsw.Prelude.{ℕ, Bool, ltb, leb, ◌&&◌}

abbrev pub box_discover : ℕ
box_discover = 0x8801

abbrev pub box_discover_resp : ℕ
box_discover_resp = 0x8802

abbrev pub get_devs : ℕ
get_devs = 0x8811

abbrev pub get_devs_resp : ℕ
get_devs_resp = 0x8812

abbrev pub get_info : ℕ
get_info = 0x8813

abbrev pub get_info_resp : ℕ
get_info_resp = 0x8814

abbrev pub get_status : ℕ
get_status = 0x8821

abbrev pub get_status_resp : ℕ
get_status_resp = 0x8822

abbrev pub set_status : ℕ
set_status = 0x8823

abbrev pub get_timer : ℕ
get_timer = 0x8831

abbrev pub get_timer_resp : ℕ
get_timer_resp = 0x8832

abbrev pub set_timer : ℕ
set_timer = 0x8833

abbrev pub del_timer : ℕ
del_timer = 0x8834

abbrev pub get_delay : ℕ
get_delay = 0x8841

abbrev pub get_delay_resp : ℕ
get_delay_resp = 0x8842

abbrev pub set_delay : ℕ
set_delay = 0x8843

abbrev pub del_delay : ℕ
del_delay = 0x8844

abbrev pub get_linkage : ℕ
get_linkage = 0x8851

abbrev pub get_linkage_resp : ℕ
get_linkage_resp = 0x8852

abbrev pub set_linkage : ℕ
set_linkage = 0x8853

abbrev pub del_linkage : ℕ
del_linkage = 0x8854

abbrev pub probe_dev : ℕ
probe_dev = 0x8861

abbrev pub event : ℕ
event = 0x8871

abbrev pub do_action : ℕ
do_action = 0x8881

abbrev pub result : ℕ
result = 0x88a1

abbrev pub last : ℕ
last = 0x88a2

abbrev pub valid : ℕ → Bool
valid x = leb box_discover x && ltb x last
