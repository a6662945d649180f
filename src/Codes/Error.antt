-- ===== src/Codes/Error.antt =====
-- `HSB_ERROR_NO_T` of include/hsb_error.h.
use hsbsw.Prelude.{ℕ}

abbrev pub ok : ℕ
ok = 0

abbrev pub invalid_msg : ℕ
invalid_msg = 1

abbrev pub not_supported : ℕ
not_supported = 2

abbrev pub bad_param : ℕ
bad_param = 3

abbrev pub no_memory : ℕ
no_memory = 4

abbrev pub entry_exists : ℕ
entry_exists = 5

abbrev pub entry_not_found : ℕ
entry_not_found = 6

abbrev pub act_failed : ℕ
act_failed = 7

abbrev pub others : ℕ
others = 8
