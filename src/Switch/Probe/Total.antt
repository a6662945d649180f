-- ===== src/Switch/Probe/Total.antt =====
-- Where the search of core_daemon/driver_virtual_switch.c stays within its arrays and reads no NULL.
use hsbsw.Prelude.{
  ℕ, ◌+◌, ◌^◌, ◌<◌, ◌≤◌, ◌≡◌, ◌≢◌, refl, ◌∙◌, arith, Bool, true, List, [], ◌∷◌, none, length,
  Option-cases, inl, inr,
}
use hsbsw.Device.Types.{World, virtual_switch_op}
use hsbsw.Device.Find.{find_drv}
use hsbsw.Device.Registry.{dev_online}
use hsbsw.Device.System.{Reach}
use hsbsw.Device.System.Invariant.{IsValid}
use hsbsw.Device.System.Reached.{Reach-IsValid, dev_online_total}
use hsbsw.Network.Field.{Buf, get_u8, get_u16, get_u32, get_bytes, advance}
use hsbsw.Switch.{VsInfo, VsBox, vs_drv_id, dev_info, vs_find_by_mac, register_device}
use hsbsw.Switch.Probe.{
  Receipt, receive, get_vs_info, probe_answer, probe_loop, virtual_switch_probe,
}
use hsbsw.Switch.Probe.Steps.{Carries, probe_answer-Carries}

get_vs_info-ne-none : (ptr : Buf) → 24 ≤ ptr.size → get_vs_info ptr ≢ none
unfolding get_vs_info get_bytes get_u8 get_u16 get_u32
get_vs_info-ne-none ptr h = ground (arith, h)

register_device-ne-none :
    (addr : ℕ) (info : VsInfo) (b : VsBox)
    → IsValid b.world.cb
    → b.world.cb.async.mem ≡ true
    → register_device addr info b ≢ none
unfolding register_device
register_device-ne-none addr info b v mem = elim (Option-cases (vs_find_by_mac b.queue info.mac)) [
  | inr (d, there) ↦ ground (arith, there)
  | inl n ↦ elim (Option-cases (dev_online vs_drv_id (dev_info info) virtual_switch_op b.world)) [
    | inl f ↦
        absurd (dev_online_total vs_drv_id (dev_info info) virtual_switch_op v Reach.here mem f)
    | inr (o, f) ↦ ground (arith, n, f)
  ]
]

probe_answer-ne-none :
    (addr : ℕ) (rbuf : Buf) (b : VsBox)
    → rbuf.size ≡ 64
    → IsValid b.world.cb
    → b.world.cb.async.mem ≡ true
    → probe_answer addr rbuf b ≢ none
unfolding probe_answer get_u16
probe_answer-ne-none addr rbuf b size v mem = elim (Option-cases (get_vs_info (advance 8 rbuf))) [
  | inl n ↦ absurd (get_vs_info-ne-none (advance 8 rbuf) (omega (arith, size)) n)
  | inr (info, i) ↦ ground (arith, size, i, register_device-ne-none addr info b v mem)
]

receive-size : (r : Receipt) (rbuf : Buf) → (receive r rbuf).size ≡ rbuf.size
receive-size r rbuf = ground arith

module _ (u : World) (known : find_drv u.cb.driverq vs_drv_id ≢ none) (v : IsValid u.cb)
    (mem : u.cb.async.mem ≡ true) where
  probe_loop-ne-none :
      (rs : List Receipt) (k count : ℕ) (rbuf : Buf) (b : VsBox)
      → rbuf.size ≡ 64
      → u.cb.dev_id + k + length rs < 2 ^ 32
      → Carries k u b.world
      → probe_loop rs count rbuf b ≢ none
  unfolding probe_loop
  probe_loop-ne-none [] k count rbuf b size small c = ground arith
  probe_loop-ne-none (r ∷ rs) k count rbuf b size small c =
      let same : (receive r rbuf).size ≡ 64 = receive-size r rbuf ∙ size in
      elim (Option-cases (probe_answer r.addr (receive r rbuf) b)) [
        | inl n ↦ absurd (
            probe_answer-ne-none r.addr (receive r rbuf) b same (Reach-IsValid c.reach v)
              (c.mem ∙ mem) n)
        | inr (d, f) ↦ ground (
          arith,
          f,
          probe_loop-ne-none rs k count (receive r rbuf) b same (omega (arith, small)) c,
          probe_loop-ne-none rs (k + 1) 32 (receive r rbuf) d same (omega (arith, small)) (
              probe_answer-Carries u known k r.addr (receive r rbuf) b d (omega (arith, small)) c
                f),
        )
      ]

-- With memory, on a well-formed box.
pub virtual_switch_probe-ne-none :
    (found : Bool) (rs : List Receipt) (stack : ℕ → ℕ) (b : VsBox)
    → find_drv b.world.cb.driverq vs_drv_id ≢ none
    → IsValid b.world.cb
    → b.world.cb.async.mem ≡ true
    → b.world.cb.dev_id + length rs < 2 ^ 32
    → virtual_switch_probe found rs stack b ≢ none
unfolding virtual_switch_probe
virtual_switch_probe-ne-none found rs stack b known v mem small = ground (
  arith,
  probe_loop-ne-none b.world known v mem rs 0 8 (record { size = 64; byte = stack }) b refl
      (omega (arith, small))
      (record { reach = Reach.here; drivers = refl; next = omega arith; mem = refl }),
)
