-- ===== src/Device/Linkages.antt =====
-- The linkages of a device: `get_dev_linkage`, `set_dev_linkage` and `del_dev_linkage` of
-- core_daemon/device.c. The guards come before every
-- access to a slot.
pub mod Laws
use hsbsw.Prelude.{ℕ, true, false, Option, none, some, leb, set, get_or, if◌then◌else◌}
use hsbsw.Codes.Error
use hsbsw.Device.Types.{Linkage, Dev, World, max_linkage_num, zero_linkage, zero_linkage_status}
use hsbsw.Device.Find.{find_dev, update_dev}

-- A write to the device that `_find_dev` finds, in place.
unfoldable pub write_linkage : ℕ → (Dev → Dev) → World → World
unfolding update_dev
write_linkage dev_id f w = record w {
  cb = record (w.cb) { queue = update_dev w.cb.queue dev_id f };
}

-- The result, and the linkage that is copied out.
unfoldable pub get_dev_linkage : ℕ → ℕ → World → ℕ × Option Linkage
unfolding find_dev
get_dev_linkage dev_id link_id w = elim (find_dev w.cb.queue dev_id) [
  | none ↦ (Error.bad_param, none)
  | some dev ↦
      if leb max_linkage_num link_id
      then (Error.bad_param, none)
      else if (get_or dev.link_status link_id zero_linkage_status).active
      then (Error.ok, some (get_or dev.link link_id zero_linkage))
      else (Error.bad_param, none)
]

-- The writes of `set_dev_linkage`.
unfoldable pub put_linkage : Linkage → Dev → Dev
put_linkage link dev = record dev {
  link = set dev.link link.id link;
  link_status = set dev.link_status link.id (record { active = true });
}

unfoldable pub set_dev_linkage : ℕ → Linkage → World → ℕ × World
unfolding find_dev write_linkage put_linkage
set_dev_linkage dev_id link w = elim (find_dev w.cb.queue dev_id) [
  | none ↦ (Error.bad_param, w)
  | some dev ↦
      if leb max_linkage_num link.id
      then (Error.bad_param, w)
      else (Error.ok, write_linkage dev_id (put_linkage link) w)
]

-- The writes of `del_dev_linkage`.
unfoldable pub clear_linkage : ℕ → Dev → Dev
clear_linkage link_id dev = record dev {
  link = set dev.link link_id zero_linkage;
  link_status = set dev.link_status link_id (record { active = false });
}

unfoldable pub del_dev_linkage : ℕ → ℕ → World → ℕ × World
unfolding find_dev write_linkage clear_linkage
del_dev_linkage dev_id link_id w = elim (find_dev w.cb.queue dev_id) [
  | none ↦ (Error.bad_param, w)
  | some dev ↦
      if leb max_linkage_num link_id
      then (Error.bad_param, w)
      else if (get_or dev.link_status link_id zero_linkage_status).active
      then (Error.ok, write_linkage dev_id (clear_linkage link_id) w)
      else (Error.bad_param, w)
]
