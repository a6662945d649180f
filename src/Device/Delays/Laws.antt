-- ===== src/Device/Delays/Laws.antt =====
-- The delays of the devices as a table: what each operation of core_daemon/device.c on delays makes
-- of it, on every branch.
use hsbsw.Prelude.{
  ℕ, ◌≡◌, refl, true, false, none, some, ◌==◌, ◌&&◌, if◌then◌else◌, get_or, get_or-set, length-set,
  All, arith, is_some, Option-cases, inl, inr, ltb,
}
use hsbsw.Codes.Error
use hsbsw.Device.Types.{
  Delay, Dev, World, zero_delay, zero_delay_status, zero_delay_status, max_delay_num,
}
use hsbsw.Device.Find.{find_dev}
use hsbsw.Device.Find.Laws.{find_dev-update_dev, find_dev-All, update_dev-All}
use hsbsw.Device.Slots.{IsSized, Table, put_at}
use hsbsw.Device.Delays.{
  get_dev_delay, set_dev_delay, del_dev_delay, put_delay, clear_delay, write_delay,
}

-- The table: what `get_dev_delay` copies out.
abbrev pub delay_at : World → Table Delay
delay_at w j k = (get_dev_delay j k w).1

pub put_delay-IsSized : (delay : Delay) (dev : Dev) → IsSized dev → IsSized (put_delay delay dev)
unfolding put_delay
put_delay-IsSized delay dev s = ground (
  arith,
  length-set dev.delay delay.id delay,
  length-set dev.delay_status delay.id
      (record (get_or dev.delay_status delay.id zero_delay_status) { active = true }),
)

pub clear_delay-IsSized : (k : ℕ) (dev : Dev) → IsSized dev → IsSized (clear_delay k dev)
unfolding clear_delay
clear_delay-IsSized k dev s = ground (
  arith,
  length-set dev.delay k zero_delay,
  length-set dev.delay_status k
      (record (get_or dev.delay_status k zero_delay_status) { active = false }),
)

-- What a successful write does to the table, at the device that it finds.
at-put :
    (dev_id : ℕ) (delay : Delay) (w : World) (dev : Dev) (j k : ℕ)
    → All IsSized w.cb.queue
    → find_dev w.cb.queue dev_id ≡ some dev
    → ltb delay.id max_delay_num ≡ true
    → delay_at (write_delay dev_id (put_delay delay) w) j k
      ≡ put_at dev_id delay.id (some delay) (delay_at w) j k
unfolding get_dev_delay write_delay put_delay
at-put dev_id delay w dev j k sized e h = ground (
  arith,
  find_dev-All IsSized w.cb.queue dev_id dev sized e,
  find_dev-update_dev w.cb.queue dev_id j (put_delay delay) (λ d. refl),
  get_or-set dev.delay delay.id k delay zero_delay,
  get_or-set dev.delay_status delay.id k
      (record (get_or dev.delay_status delay.id zero_delay_status) { active = true })
      zero_delay_status,
)

at-clear :
    (dev_id i : ℕ) (w : World) (dev : Dev) (j k : ℕ)
    → All IsSized w.cb.queue
    → find_dev w.cb.queue dev_id ≡ some dev
    → ltb i max_delay_num ≡ true
    → delay_at (write_delay dev_id (clear_delay i) w) j k ≡ put_at dev_id i none (delay_at w) j k
unfolding get_dev_delay write_delay clear_delay
at-clear dev_id i w dev j k sized e h = ground (
  arith,
  find_dev-All IsSized w.cb.queue dev_id dev sized e,
  find_dev-update_dev w.cb.queue dev_id j (clear_delay i) (λ d. refl),
  get_or-set dev.delay i k zero_delay zero_delay,
  get_or-set dev.delay_status i k
      (record (get_or dev.delay_status i zero_delay_status) { active = false }) zero_delay_status,
)

-- While the arrays of the online devices have their lengths: setting a delay succeeds exactly if
-- the device is present and the slot is in range, and then changes the table at that place only,
-- to the delay given; else the table stays as it is.
pub at-set_dev_delay :
    (dev_id : ℕ) (delay : Delay) (w : World) (j k : ℕ)
    → All IsSized w.cb.queue
    → let (ret, w') = set_dev_delay dev_id delay w in
      (ret ≡ (
        if is_some (find_dev w.cb.queue dev_id) && ltb delay.id max_delay_num
        then Error.ok
        else Error.bad_param))
      × (delay_at w' j k ≡ (
          if ret == Error.ok
          then put_at dev_id delay.id (some delay) (delay_at w) j k
          else delay_at w j k))
unfolding set_dev_delay
at-set_dev_delay dev_id delay w j k sized = elim (Option-cases (find_dev w.cb.queue dev_id)) [
  | inl e ↦ ground arith
  | inr (dev, e) ↦ ground (arith, at-put dev_id delay w dev j k sized e)
]

-- While the arrays of the online devices have their lengths: deleting a delay succeeds exactly if
-- one is set at that place, and then empties that place only; else the table stays as it is.
pub at-del_dev_delay :
    (dev_id i : ℕ) (w : World) (j k : ℕ)
    → All IsSized w.cb.queue
    → let (ret, w') = del_dev_delay dev_id i w in
      (ret ≡ (if is_some (delay_at w dev_id i) then Error.ok else Error.bad_param))
      × (delay_at w' j k
          ≡ (if ret == Error.ok then put_at dev_id i none (delay_at w) j k else delay_at w j k))
unfolding del_dev_delay get_dev_delay
at-del_dev_delay dev_id i w j k sized = elim (Option-cases (find_dev w.cb.queue dev_id)) [
  | inl e ↦ ground arith
  | inr (dev, e) ↦ ground (arith, at-clear dev_id i w dev j k sized e)
]

-- The arrays keep their lengths.
pub set_dev_delay-IsSized :
    (dev_id : ℕ) (delay : Delay) (w : World)
    → All IsSized w.cb.queue
    → All IsSized (set_dev_delay dev_id delay w).1.cb.queue
unfolding set_dev_delay write_delay
set_dev_delay-IsSized dev_id delay w sized = ground (
  arith,
  update_dev-All IsSized w.cb.queue dev_id (put_delay delay) (put_delay-IsSized delay) sized,
)

pub del_dev_delay-IsSized :
    (dev_id i : ℕ) (w : World)
    → All IsSized w.cb.queue
    → All IsSized (del_dev_delay dev_id i w).1.cb.queue
unfolding del_dev_delay write_delay
del_dev_delay-IsSized dev_id i w sized =
    ground (
      arith,
      update_dev-All IsSized w.cb.queue dev_id (clear_delay i) (clear_delay-IsSized i) sized,
    )
