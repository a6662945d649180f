-- ===== src/Switch/Laws.antt =====
-- What the time-outs, the registration and the exchanges of core_daemon/driver_virtual_switch.c come to.
use mathlib.Core.Path.{subst}
use hsbsw.Prelude.{
  ℕ, zero, suc, ◌+◌, ◌^◌, ◌≤◌, ◌<◌, ◌≡◌, ◌≢◌, refl, ap, arith, ◌*◌, ◌%◌, set, List, [], ◌∷◌, Option,
  none, some, leb, ltb, if◌then◌else◌, length, Bool-cases, Option-cases, inl, inr,
}
use hsbsw.Codes.Error
use hsbsw.Device.Types.{Status, World, virtual_switch_op}
use hsbsw.Device.Find.{find_drv}
use hsbsw.Device.Registry.{dev_online, dev_offline}
use hsbsw.Device.System.{Step, Reach}
use hsbsw.Network.Field.{Buf, ◌>>=◌, get_u16, set_u16, zero_buf}
use hsbsw.Switch.{
  VsInfo, VsDev, VsBox, vs_drv_id, dev_info, vs_find_by_mac, vs_find_by_id, remove_timeout,
  remove_timeout_dev, register_device,
}
use hsbsw.Switch.Ops.{
  put_entries, read_entries, get_answer, vs_get_status_resp, vs_set_status,
  virtual_switch_set_status,
}

-- A device that has been heard of since the time-out, one period later.
abbrev pub staying : List VsDev → List VsDev
staying [] = []
staying (d ∷ q) =
    if leb d.idle_time 10 then record d { idle_time = suc (d.idle_time) } ∷ staying q else staying q

abbrev pub gone_ids : List VsDev → List ℕ
gone_ids [] = []
gone_ids (d ∷ q) = if leb d.idle_time 10 then gone_ids q else d.id ∷ gone_ids q

abbrev pub all_offline : List ℕ → World → World
all_offline [] w = w
all_offline (i ∷ ids) w = all_offline ids (dev_offline i w).1

remove_timeout_lem :
    (q : List VsDev) (w : World) → remove_timeout q w ≡ (staying q, all_offline (gone_ids q) w)
unfolding remove_timeout
remove_timeout_lem [] w = refl
remove_timeout_lem (d ∷ q) w =
    ground (arith, remove_timeout_lem q w, remove_timeout_lem q (dev_offline d.id w).1)

-- After ten periods without a datagram, and not before, a device goes: exactly the devices with more
-- are dropped and taken offline, in their order, and all others stay, one period older.
pub remove_timeout_dev_lem :
    (b : VsBox)
    → remove_timeout_dev b
      ≡ record { queue = staying b.queue; world = all_offline (gone_ids b.queue) b.world }
unfolding remove_timeout_dev
remove_timeout_dev_lem b =
    ap (λ (r : List VsDev × World). record { queue = r.0; world = r.1 })
      (remove_timeout_lem b.queue b.world)

put_entries_fault :
    (num id : ℕ) (ids vals : List ℕ) (buf : Buf)
    → length ids < num
    → put_entries num id ids vals buf ≡ none
unfolding put_entries
put_entries_fault zero id ids vals buf h = absurd (omega arith)
put_entries_fault (suc num) id [] vals buf h = refl
put_entries_fault (suc num) id (i ∷ ids) [] buf h = refl
put_entries_fault (suc num) id (i ∷ ids) (v ∷ vals) buf h =
    elim (Option-cases (set_u16 buf (4 + id * 4) i)) [
      | inl e ↦ rw e refl
      | inr (b, e) ↦ elim (Option-cases (set_u16 b (6 + id * 4) v)) [
        | inl e' ↦ rw (e, e') refl
        | inr (b', e') ↦ rw (e, e') (put_entries_fault num (suc id) ids vals b' (omega arith))
      ]
    ]

bind-none {ℓ κ} :
    {A : Type ℓ} {B : Type κ} (o : Option A) (f : A → Option B)
    → ((a : A) → f a ≡ none)
    → (o >>= f) ≡ none
bind-none none f h = refl
bind-none (some a) f h = h a

-- A request to set more statuses than its arrays have entries, such as the one that a SET_STATUS packet
-- of fewer than five bytes queues, makes the driver access memory out of an array, whatever the
-- device answers.
pub virtual_switch_set_status_fault :
    (transfer : ℕ → Buf → ℕ → Option (Buf × ℕ)) (q : List VsDev) (pdev : VsDev) (st : Status)
    → vs_find_by_id q st.devid ≡ some pdev
    → length st.id < st.num
    → virtual_switch_set_status transfer q st ≡ none
unfolding virtual_switch_set_status
virtual_switch_set_status_fault transfer q pdev st e h =
    rw (virtual_switch_set_status, e)
      (bind-none (set_u16 (zero_buf 64) 0 vs_set_status) _ (λ b.
        bind-none (set_u16 b 2 ((4 + 4 * st.num) % 2 ^ 32)) _
          (λ b'. rw (put_entries_fault st.num 0 st.id st.val b' h) refl)))

read_entries_one :
    (fuel num rlen : ℕ) (rbuf : Buf) (ids vals : List ℕ)
    → 0 < fuel
    → num ≡ 0
    → 8 ≤ rlen
    → 8 ≤ rbuf.size
    → 0 < length ids
    → (ids' : List ℕ) × (vals' : List ℕ) × (read_entries fuel num rlen 0 4 rbuf ids vals
        ≡ some (1, ids', vals'))
unfolding read_entries get_u16
read_entries_one zero num rlen rbuf ids vals f n long size room = absurd (omega arith)
read_entries_one (suc fuel) num rlen rbuf ids vals f n long size room = (
  set ids 0 (rbuf.byte 4 + 256 * rbuf.byte 5),
  set vals 0 (rbuf.byte 6 + 256 * rbuf.byte 7),
  ground arith,
)

-- A request for the status, which the box makes with `num` 0, is answered with one entry, however many
-- the device has sent, if the device's answer is a GET_STATUS_RESP of at least 8 bytes with its length
-- in its header.
pub get_answer_one :
    (st : Status) (rbuf : Buf) (ret : ℕ)
    → st.num ≡ 0
    → 0 < length st.id
    → rbuf.size ≡ 64
    → 8 ≤ ret
    → get_u16 rbuf 0 ≡ some vs_get_status_resp
    → get_u16 rbuf 2 ≡ some ret
    → (st' : Status) × (get_answer st (some (rbuf, ret)) ≡ some (Error.ok, st')) × (st'.num ≡ 1)
unfolding get_answer
get_answer_one st rbuf ret n room size long c l =
    let (ids, vals, e) =
      read_entries_one ret st.num ret rbuf st.id st.val (omega arith) n long (omega arith) room in
    (record { devid = st.devid; num = 1; id = ids; val = vals }, ground (arith, c, l, e), refl)

pub Reach-trans : {u v w : World} → Reach u v → Reach v w → Reach u w
Reach-trans r Reach.here = r
Reach-trans r (Reach.next s t) = Reach.next (Reach-trans r s) t

remove_timeout-Reach : (q : List VsDev) (w : World) → Reach w (remove_timeout q w).1
unfolding remove_timeout
remove_timeout-Reach [] w = Reach.here
remove_timeout-Reach (d ∷ q) w = elim (Bool-cases (ltb 10 d.idle_time)) [
  | inl h ↦ rw h (
      Reach-trans (Reach.next Reach.here (Step.goes d.id))
        (remove_timeout-Reach q (dev_offline d.id w).1))
  | inr h ↦ rw h (remove_timeout-Reach q w)
]

registered_world :
    (addr : ℕ) (info : VsInfo) (b b' : VsBox) (ret r devid : ℕ) (w : World)
    → vs_find_by_mac b.queue info.mac ≡ none
    → dev_online vs_drv_id (dev_info info) virtual_switch_op b.world ≡ some (r, devid, w)
    → register_device addr info b ≡ some (ret, b')
    → w ≡ b'.world
unfolding register_device
registered_world addr info b b' ret r devid w none_there came e =
    ground (arith, none_there, came, e)

registered_before :
    (addr : ℕ) (info : VsInfo) (b b' : VsBox) (ret : ℕ) (d : VsDev)
    → vs_find_by_mac b.queue info.mac ≡ some d
    → register_device addr info b ≡ some (ret, b')
    → b.world ≡ b'.world
unfolding register_device
registered_before addr info b b' ret d there e = ground (arith, there, e)

not_registered :
    (addr : ℕ) (info : VsInfo) (b : VsBox)
    → vs_find_by_mac b.queue info.mac ≡ none
    → dev_online vs_drv_id (dev_info info) virtual_switch_op b.world ≡ none
    → register_device addr info b ≡ none
unfolding register_device
not_registered addr info b none_there fault = ground (arith, none_there, fault)

-- What a registration leaves: the box as it was, or what `dev_online` made of it.
pub register_device_cases {ℓ} :
    (P : World → Type ℓ) (addr : ℕ) (info : VsInfo) (b b' : VsBox) (ret : ℕ)
    → P b.world
    → ((r devid : ℕ) (w : World)
        → dev_online vs_drv_id (dev_info info) virtual_switch_op b.world ≡ some (r, devid, w)
        → P w)
    → register_device addr info b ≡ some (ret, b')
    → P b'.world
register_device_cases P addr info b b' ret stays comes e =
    elim (Option-cases (vs_find_by_mac b.queue info.mac)) [
      | inr (d, there) ↦ subst P (registered_before addr info b b' ret d there e) stays
      | inl n ↦
          elim (Option-cases (dev_online vs_drv_id (dev_info info) virtual_switch_op b.world)) [
            | inl f ↦ absurd (ground (arith, not_registered addr info b n f, e))
            | inr ((r, devid, w), f) ↦
                subst P (registered_world addr info b b' ret r devid w n f e) (comes r devid w f)
          ]
    ]

-- The registration of a device that has answered a probe, and the time-outs of the next period, are
-- steps of the box, while the driver is loaded and the counter of the ids does not wrap: so they keep
-- what every step keeps.
pub register_device-Reach :
    (addr : ℕ) (info : VsInfo) (b b' : VsBox) (ret : ℕ)
    → find_drv b.world.cb.driverq vs_drv_id ≢ none
    → b.world.cb.dev_id + 1 < 2 ^ 32
    → register_device addr info b ≡ some (ret, b')
    → Reach b.world (remove_timeout_dev b').world
unfolding remove_timeout_dev
register_device-Reach addr info b b' ret known small e =
    Reach-trans
      (register_device_cases (Reach b.world) addr info b b' ret Reach.here
        (λ r devid w f.
          Reach.next Reach.here
            (Step.comes vs_drv_id (dev_info info) virtual_switch_op r devid w known small f))
        e)
      (remove_timeout-Reach b'.queue b'.world)
