-- ===== src/Device/Slots.antt =====
-- What the tables of timers, delays and linkages share: the lengths of a device's arrays, and a table
-- of slots, from the id of a device and a slot's number to what is set there.
use hsbsw.Prelude.{ℕ, ◌≡◌, Option, ◌==◌, ◌&&◌, if◌then◌else◌, length}
use hsbsw.Device.Types.{Dev, max_timer_num, max_delay_num, max_linkage_num}

-- The arrays of the device have the lengths of their C types.
pub record IsSized (dev : Dev) : Type 0 where
  pub timer : length dev.timer ≡ max_timer_num
  pub timer_status : length dev.timer_status ≡ max_timer_num
  pub delay : length dev.delay ≡ max_delay_num
  pub delay_status : length dev.delay_status ≡ max_delay_num
  pub link : length dev.link ≡ max_linkage_num
  pub link_status : length dev.link_status ≡ max_linkage_num

abbrev pub Table : Type 0 → Type 0
Table V = ℕ → ℕ → Option V

-- The table after an update at one place.
abbrev pub put_at : {V : Type 0} → ℕ → ℕ → Option V → Table V → Table V
put_at j k o table j' k' = if (j == j') && (k == k') then o else table j' k'
