-- ===== src/Device/Linkages/Laws.antt =====
-- The linkages of the devices as a table: what each operation of core_daemon/device.c on linkages makes
-- of it, on every branch.
use hsbsw.Prelude.{
  ℕ, ◌≡◌, refl, true, false, none, some, ◌==◌, ◌&&◌, if◌then◌else◌, get_or-set, length-set, All,
  arith, is_some, Option-cases, inl, inr, ltb,
}
use hsbsw.Codes.Error
use hsbsw.Device.Types.{Linkage, Dev, World, zero_linkage, zero_linkage_status, max_linkage_num}
use hsbsw.Device.Find.{find_dev}
use hsbsw.Device.Find.Laws.{find_dev-update_dev, find_dev-All, update_dev-All}
use hsbsw.Device.Slots.{IsSized, Table, put_at}
use hsbsw.Device.Linkages.{
  get_dev_linkage, set_dev_linkage, del_dev_linkage, put_linkage, clear_linkage, write_linkage,
}

-- The table: what `get_dev_linkage` copies out.
abbrev pub linkage_at : World → Table Linkage
linkage_at w j k = (get_dev_linkage j k w).1

pub put_linkage-IsSized :
    (link : Linkage) (dev : Dev) → IsSized dev → IsSized (put_linkage link dev)
unfolding put_linkage
put_linkage-IsSized link dev s = ground (
  arith,
  length-set dev.link link.id link,
  length-set dev.link_status link.id (record { active = true }),
)

pub clear_linkage-IsSized : (k : ℕ) (dev : Dev) → IsSized dev → IsSized (clear_linkage k dev)
unfolding clear_linkage
clear_linkage-IsSized k dev s = ground (
  arith,
  length-set dev.link k zero_linkage,
  length-set dev.link_status k (record { active = false }),
)

-- What a successful write does to the table, at the device that it finds.
at-put :
    (dev_id : ℕ) (link : Linkage) (w : World) (dev : Dev) (j k : ℕ)
    → All IsSized w.cb.queue
    → find_dev w.cb.queue dev_id ≡ some dev
    → ltb link.id max_linkage_num ≡ true
    → linkage_at (write_linkage dev_id (put_linkage link) w) j k
      ≡ put_at dev_id link.id (some link) (linkage_at w) j k
unfolding get_dev_linkage write_linkage put_linkage
at-put dev_id link w dev j k sized e h = ground (
  arith,
  find_dev-All IsSized w.cb.queue dev_id dev sized e,
  find_dev-update_dev w.cb.queue dev_id j (put_linkage link) (λ d. refl),
  get_or-set dev.link link.id k link zero_linkage,
  get_or-set dev.link_status link.id k (record { active = true }) zero_linkage_status,
)

at-clear :
    (dev_id i : ℕ) (w : World) (dev : Dev) (j k : ℕ)
    → All IsSized w.cb.queue
    → find_dev w.cb.queue dev_id ≡ some dev
    → ltb i max_linkage_num ≡ true
    → linkage_at (write_linkage dev_id (clear_linkage i) w) j k
      ≡ put_at dev_id i none (linkage_at w) j k
unfolding get_dev_linkage write_linkage clear_linkage
at-clear dev_id i w dev j k sized e h = ground (
  arith,
  find_dev-All IsSized w.cb.queue dev_id dev sized e,
  find_dev-update_dev w.cb.queue dev_id j (clear_linkage i) (λ d. refl),
  get_or-set dev.link i k zero_linkage zero_linkage,
  get_or-set dev.link_status i k (record { active = false }) zero_linkage_status,
)

-- While the arrays of the online devices have their lengths: setting a linkage succeeds exactly if
-- the device is present and the slot is in range, and then changes the table at that place only,
-- to the linkage given; else the table stays as it is.
pub at-set_dev_linkage :
    (dev_id : ℕ) (link : Linkage) (w : World) (j k : ℕ)
    → All IsSized w.cb.queue
    → let (ret, w') = set_dev_linkage dev_id link w in
      (ret ≡ (
        if is_some (find_dev w.cb.queue dev_id) && ltb link.id max_linkage_num
        then Error.ok
        else Error.bad_param))
      × (linkage_at w' j k ≡ (
          if ret == Error.ok
          then put_at dev_id link.id (some link) (linkage_at w) j k
          else linkage_at w j k))
unfolding set_dev_linkage
at-set_dev_linkage dev_id link w j k sized = elim (Option-cases (find_dev w.cb.queue dev_id)) [
  | inl e ↦ ground arith
  | inr (dev, e) ↦ ground (arith, at-put dev_id link w dev j k sized e)
]

-- While the arrays of the online devices have their lengths: deleting a linkage succeeds exactly if
-- one is set at that place, and then empties that place only; else the table stays as it is.
pub at-del_dev_linkage :
    (dev_id i : ℕ) (w : World) (j k : ℕ)
    → All IsSized w.cb.queue
    → let (ret, w') = del_dev_linkage dev_id i w in
      (ret ≡ (if is_some (linkage_at w dev_id i) then Error.ok else Error.bad_param))
      × (linkage_at w' j k
          ≡ (if ret == Error.ok then put_at dev_id i none (linkage_at w) j k else linkage_at w j k))
unfolding del_dev_linkage get_dev_linkage
at-del_dev_linkage dev_id i w j k sized = elim (Option-cases (find_dev w.cb.queue dev_id)) [
  | inl e ↦ ground arith
  | inr (dev, e) ↦ ground (arith, at-clear dev_id i w dev j k sized e)
]

-- The arrays keep their lengths.
pub set_dev_linkage-IsSized :
    (dev_id : ℕ) (link : Linkage) (w : World)
    → All IsSized w.cb.queue
    → All IsSized (set_dev_linkage dev_id link w).1.cb.queue
unfolding set_dev_linkage write_linkage
set_dev_linkage-IsSized dev_id link w sized = ground (
  arith,
  update_dev-All IsSized w.cb.queue dev_id (put_linkage link) (put_linkage-IsSized link) sized,
)

pub del_dev_linkage-IsSized :
    (dev_id i : ℕ) (w : World)
    → All IsSized w.cb.queue
    → All IsSized (del_dev_linkage dev_id i w).1.cb.queue
unfolding del_dev_linkage write_linkage
del_dev_linkage-IsSized dev_id i w sized = ground (
  arith,
  update_dev-All IsSized w.cb.queue dev_id (clear_linkage i) (clear_linkage-IsSized i) sized,
)
