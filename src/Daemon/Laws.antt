-- ===== src/Daemon/Laws.antt =====
-- What the start of core_daemon/core_daemon.c leaves, and what follows from it.
use mathlib.Core.Path.{subst}
use mathlib.Core.List.{Nodup-nil, not-mem-nil}
use hsbsw.Prelude.{
  ℕ, ◌+◌, ◌^◌, ◌<◌, ◌≤◌, ◌≡◌, ◌≢◌, sym, ap, ◌∙◌, arith, true, List, [], ◌∷◌, ◌++◌, none, some, All,
  length, ◌&&◌, if◌then◌else◌, Bool-cases, Option-cases, inl, inr,
}
use hsbsw.Network.Field.{set_u16}
use hsbsw.Device.Types.{Drv}
use hsbsw.Device.Find.{find_drv, get_dev_id_list}
use hsbsw.Device.Registry.{register_dev_drv, has_drv}
use hsbsw.Device.Check.Sized.{IsGood}
use hsbsw.Device.System.{Reach}
use hsbsw.Device.System.Invariant.{IsValid}
use hsbsw.Device.System.Reached.{Reach-IsValid}
use hsbsw.Switch.{vs_drv_id, virtual_switch_drv, init_virtual_switch_drv}
use hsbsw.Switch.Probe.{virtual_switch_probe}
use hsbsw.Switch.Probe.Total.{virtual_switch_probe-ne-none}
use hsbsw.Zigbee.Ops.{memcpy}
use hsbsw.Switch.Probe.Steps.{virtual_switch_probe-Reach}
use hsbsw.Zigbee.{CzBox, cz_drv, init_cz_drv}
use hsbsw.Zigbee.Ops.{cz_probe, post, put_header}
use hsbsw.Zigbee.Cases.{>>=-some}
use hsbsw.Daemon.{
  with_switch, with_zigbee, Daemon, Boot, switch_part, zigbee_part, probe_drv, probe_all_devices,
  init_drivers, init_dev_module, init_private_thread,
}

-- The drivers that are loaded.
abbrev pub switch_drivers : Boot → List Drv
switch_drivers boot = if boot.switch_starts then virtual_switch_drv ∷ [] else []

abbrev pub zigbee_drivers : Boot → List Drv
zigbee_drivers boot = if boot.serial_opens && boot.zigbee_starts then cz_drv ∷ [] else []

-- The program as it is left for the probes.
record IsFresh (boot : Boot) (d d₁ : Daemon) : Type 0 where
  queue : d₁.world.cb.queue ≡ []
  offq : d₁.world.cb.offq ≡ []
  dev_id : d₁.world.cb.dev_id ≡ 1
  driverq : d₁.world.cb.driverq ≡ switch_drivers boot ++ zigbee_drivers boot
  mem : d₁.world.cb.async.mem ≡ d.world.cb.async.mem
  send_buf : d₁.ctl.send_buf.size ≡ d.ctl.send_buf.size

init_drivers-IsFresh : (boot : Boot) (d : Daemon) → IsFresh boot d (init_drivers boot d)
unfolding init_drivers init_private_thread init_virtual_switch_drv init_cz_drv register_dev_drv
    has_drv
init_drivers-IsFresh boot d = ground arith

IsFresh-IsValid : (boot : Boot) (d d₁ : Daemon) → IsFresh boot d d₁ → IsValid d₁.world.cb
unfolding get_dev_id_list
IsFresh-IsValid boot d d₁ f = record {
  online = subst (All IsGood) (sym f.queue) tt;
  offline = subst (All IsGood) (sym f.offq) tt;
  ids =
      rw (f.queue, f.offq) (record { distinct = Nodup-nil; fresh = λ i m. absurd (not-mem-nil m) });
}

cz_probe-world : (stack : ℕ → ℕ) (b b' : CzBox) → cz_probe stack b ≡ some b' → b'.world ≡ b.world
unfolding cz_probe
cz_probe-world stack b b' e =
    let (w, p, e) = >>=-some (put_header _ _ _ _ _ _ _) _ _ e in
    let (c, q, e) = >>=-some (post w 20 _) _ _ e in ground (arith, e)

probe_zigbee-world :
    (boot : Boot) (d d' : Daemon)
    → probe_all_devices boot (zigbee_drivers boot) d ≡ some d'
    → d'.world ≡ d.world
unfolding probe_all_devices probe_drv
probe_zigbee-world boot d d' e = elim (Bool-cases (boot.serial_opens && boot.zigbee_starts)) [
  | inr h ↦ ap (λ (x : Daemon). x.world) {x = d'} {y = d} (ground (arith, h, e))
  | inl h ↦ elim (Option-cases (cz_probe boot.zigbee_stack (zigbee_part d))) [
    | inl n ↦ absurd (ground (arith, h, n, e))
    | inr (b, p) ↦
        ap (λ (x : Daemon). x.world) {x = d'} {y = with_zigbee d b} (ground (arith, h, p, e))
        ∙ cz_probe-world boot.zigbee_stack (zigbee_part d) b p
  ]
]

probe_all-Reach :
    (boot : Boot) (d d' : Daemon)
    → (boot.switch_starts ≡ true → find_drv d.world.cb.driverq vs_drv_id ≢ none)
    → d.world.cb.dev_id + length boot.receipts < 2 ^ 32
    → probe_all_devices boot (switch_drivers boot ++ zigbee_drivers boot) d ≡ some d'
    → Reach d.world d'.world
unfolding probe_all_devices probe_drv
probe_all-Reach boot d d' known small e = elim (Bool-cases boot.switch_starts) [
  | inr h ↦
      subst (Reach d.world) (sym (probe_zigbee-world boot d d' (ground (arith, h, e)))) Reach.here
  | inl h ↦
      elim (Option-cases
        (virtual_switch_probe boot.has_broadcast boot.receipts boot.switch_stack (switch_part d))) [
          | inl n ↦ absurd (ground (arith, h, n, e))
          | inr ((ret, b), p) ↦
              subst (Reach d.world)
                (sym (probe_zigbee-world boot (with_switch d b) d' (ground (arith, h, p, e))))
                (virtual_switch_probe-Reach boot.has_broadcast boot.receipts boot.switch_stack
                  (switch_part d) b ret (known h) small p)
        ]
]

known_drv :
    (boot : Boot) (d d₁ : Daemon)
    → IsFresh boot d d₁
    → boot.switch_starts ≡ true
    → find_drv d₁.world.cb.driverq vs_drv_id ≢ none
unfolding find_drv
known_drv boot d d₁ f h = rw (f.driverq, h) (λ e. absurd (ground (arith, e)))

cz_probe-ne-none : (stack : ℕ → ℕ) (b : CzBox) → 20 ≤ b.ctl.send_buf.size → cz_probe stack b ≢ none
unfolding cz_probe put_header post memcpy set_u16
cz_probe-ne-none stack b h = ground (arith, h)

probe_zigbee-ne-none :
    (boot : Boot) (d : Daemon)
    → 20 ≤ d.ctl.send_buf.size
    → probe_all_devices boot (zigbee_drivers boot) d ≢ none
unfolding probe_all_devices probe_drv
probe_zigbee-ne-none boot d h =
    ground (arith, h, cz_probe-ne-none boot.zigbee_stack (zigbee_part d) h)

probe_all-ne-none :
    (boot : Boot) (d : Daemon)
    → (boot.switch_starts ≡ true → find_drv d.world.cb.driverq vs_drv_id ≢ none)
    → IsValid d.world.cb
    → d.world.cb.async.mem ≡ true
    → 20 ≤ d.ctl.send_buf.size
    → d.world.cb.dev_id + length boot.receipts < 2 ^ 32
    → probe_all_devices boot (switch_drivers boot ++ zigbee_drivers boot) d ≢ none
unfolding probe_all_devices probe_drv
probe_all-ne-none boot d known v mem room small e = elim (Bool-cases boot.switch_starts) [
  | inr h ↦ absurd (probe_zigbee-ne-none boot d room (ground (arith, h, e)))
  | inl h ↦
      elim (Option-cases
        (virtual_switch_probe boot.has_broadcast boot.receipts boot.switch_stack (switch_part d))) [
          | inl n ↦ absurd (
              virtual_switch_probe-ne-none boot.has_broadcast boot.receipts boot.switch_stack
                (switch_part d) (known h) v mem small n)
          | inr ((ret, b), p) ↦
              absurd (probe_zigbee-ne-none boot (with_switch d b) room (ground (arith, h, p, e)))
        ]
]

-- The start returns, and leaves a well-formed box, whatever its memory held before, whatever threads and
-- lines fail, and whatever the search for switches meets: while there is memory, within fewer than
-- 2 ^ 32 - 1 receipts, and with the ZigBee driver's buffer of at least the 20 bytes of its probe.
pub init_dev_module-IsValid :
    (boot : Boot) (d : Daemon)
    → length boot.receipts + 1 < 2 ^ 32
    → d.world.cb.async.mem ≡ true
    → 20 ≤ d.ctl.send_buf.size
    → (d' : Daemon) × (init_dev_module boot d ≡ some d') × IsValid d'.world.cb
unfolding init_dev_module
init_dev_module-IsValid boot d small mem room =
    elim (Option-cases (probe_all_devices boot (switch_drivers boot ++ zigbee_drivers boot) d₁)) [
      | inl n ↦ absurd (probe_all-ne-none boot d₁ known v (f.mem ∙ mem) room' small' n)
      | inr (d', e) ↦ (
        d',
        ap (λ q. probe_all_devices boot q d₁) f.driverq ∙ e,
        Reach-IsValid (probe_all-Reach boot d₁ d' known small' e) v,
      )
    ]
  where
    d₁ : Daemon
    d₁ = init_drivers boot d

    f : IsFresh boot d d₁
    f = init_drivers-IsFresh boot d

    v : IsValid d₁.world.cb
    v = IsFresh-IsValid boot d d₁ f

    known : boot.switch_starts ≡ true → find_drv d₁.world.cb.driverq vs_drv_id ≢ none
    known = known_drv boot d d₁ f

    room' : 20 ≤ d₁.ctl.send_buf.size
    room' = subst (λ n. 20 ≤ n) (sym f.send_buf) room

    small' : d₁.world.cb.dev_id + length boot.receipts < 2 ^ 32
    small' = omega (arith, small, f.dev_id)
