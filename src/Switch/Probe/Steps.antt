-- ===== src/Switch/Probe/Steps.antt =====
-- The search of core_daemon/driver_virtual_switch.c as steps of the box.
use mathlib.Core.Path.{subst}
use hsbsw.Prelude.{
  ℕ, ◌+◌, ◌^◌, ◌<◌, ◌≤◌, ◌≡◌, ◌≢◌, refl, sym, ◌∙◌, arith, Bool, true, false, List, [], ◌∷◌, Option,
  none, some, length, ◌==◌, ltb, not, ◌||◌, if◌then◌else◌, Bool-cases, Option-cases, inl, inr,
}
use hsbsw.Device.Types.{World, virtual_switch_op}
use hsbsw.Device.Find.{find_drv}
use hsbsw.Device.Registry.{dev_online}
use hsbsw.Device.System.{Step, Reach}
use hsbsw.Device.System.Moves.{dev_online-counter}
use hsbsw.Network.Field.{Buf, get_u16, advance}
use hsbsw.Switch.{VsInfo, VsBox, vs_drv_id, dev_info, register_device}
use hsbsw.Switch.Laws.{register_device_cases}
use hsbsw.Switch.Probe.{
  Receipt, receive, vs_device_discover_resp, get_vs_info, probe_answer, probe_loop,
  virtual_switch_probe,
}

-- From `u` the box gets to `w`, handing out at most `k` ids, with the same drivers.
pub record Carries (k : ℕ) (u w : World) : Type 0 where
  pub reach : Reach u w
  pub drivers : w.cb.driverq ≡ u.cb.driverq
  pub next : w.cb.dev_id ≤ u.cb.dev_id + k
  pub mem : w.cb.async.mem ≡ u.cb.async.mem

module _ (u : World) (known : find_drv u.cb.driverq vs_drv_id ≢ none) where
  pub Carries-comes :
      (k : ℕ) (info : VsInfo) (w w' : World) (r devid : ℕ)
      → u.cb.dev_id + k + 1 < 2 ^ 32
      → Carries k u w
      → dev_online vs_drv_id (dev_info info) virtual_switch_op w ≡ some (r, devid, w')
      → Carries (k + 1) u w'
  Carries-comes k info w w' r devid small c e =
      let (q, n, m) =
        dev_online-counter vs_drv_id (dev_info info) virtual_switch_op r devid w w' e in
      record {
        reach = Reach.next c.reach (
            Step.comes vs_drv_id (dev_info info) virtual_switch_op r devid w'
              (subst (λ d. find_drv d vs_drv_id ≢ none) (sym c.drivers) known)
              (omega (arith, small, c.next)) e);
        drivers = q ∙ c.drivers;
        next = omega (arith, n, c.next);
        mem = m ∙ c.mem;
      }

  pub Carries-stays : (k : ℕ) (w : World) → Carries k u w → Carries (k + 1) u w
  Carries-stays k w c = record {
    reach = c.reach;
    drivers = c.drivers;
    next = omega (arith, c.next);
    mem = c.mem;
  }

  pub probe_answer-Carries :
      (k addr : ℕ) (rbuf : Buf) (b b' : VsBox)
      → u.cb.dev_id + k + 1 < 2 ^ 32
      → Carries k u b.world
      → probe_answer addr rbuf b ≡ some b'
      → Carries (k + 1) u b'.world
  unfolding probe_answer
  probe_answer-Carries k addr rbuf b b' small c e =
      let P : VsBox → Type 0 = λ d. Carries (k + 1) u d.world in
      elim (Option-cases (get_u16 rbuf 0)) [
        | inl n ↦ absurd (ground (arith, n, e))
        | inr (cmd, f) ↦ elim (Option-cases (get_u16 rbuf 2)) [
          | inl n ↦ absurd (ground (arith, f, n, e))
          | inr (len, g) ↦
              elim (Bool-cases (not (cmd == vs_device_discover_resp) || not (len == 32))) [
                | inl t ↦
                    subst P {x = b} {y = b'} (ground (arith, f, g, t, e))
                      (Carries-stays k b.world c)
                | inr t ↦ elim (Option-cases (get_vs_info (advance 8 rbuf))) [
                  | inl n ↦ absurd (ground (arith, f, g, t, n, e))
                  | inr (info, i) ↦ elim (Option-cases (register_device addr info b)) [
                    | inl n ↦ absurd (ground (arith, f, g, t, i, n, e))
                    | inr ((ret, d), r) ↦
                        subst P {x = d} {y = b'} (ground (arith, f, g, t, i, r, e)) (
                          register_device_cases (Carries (k + 1) u) addr info b d ret
                            (Carries-stays k b.world c)
                            (λ r devid w o. Carries-comes k info b.world w r devid small c o) r)
                  ]
                ]
              ]
        ]
      ]

  goes_on :
      (more : Bool) (rest : Option VsBox) (d b' : VsBox)
      → (rest ≡ some b' → Reach u b'.world)
      → Reach u d.world
      → (if more then rest else some d) ≡ some b'
      → Reach u b'.world
  goes_on true rest d b' go r e = go e
  goes_on false rest d b' go r e =
      subst (λ (x : VsBox). Reach u x.world) {x = d} {y = b'} (ground (arith, e)) r

  pub probe_loop-Reach :
      (rs : List Receipt) (k count : ℕ) (rbuf : Buf) (b b' : VsBox)
      → u.cb.dev_id + k + length rs < 2 ^ 32
      → Carries k u b.world
      → probe_loop rs count rbuf b ≡ some b'
      → Reach u b'.world
  unfolding probe_loop
  probe_loop-Reach [] k count rbuf b b' small c e =
      subst (λ (d : VsBox). Reach u d.world) {x = b} {y = b'} (ground (arith, e)) c.reach
  probe_loop-Reach (r ∷ rs) k count rbuf b b' small c e = elim (Bool-cases (ltb r.ret count)) [
    | inl h ↦
        goes_on r.more (probe_loop rs count (receive r rbuf) b) b b'
          (probe_loop-Reach rs k count (receive r rbuf) b b' (omega (arith, small)) c) c.reach
          (ground (arith, h, e))
    | inr h ↦ elim (Option-cases (probe_answer r.addr (receive r rbuf) b)) [
      | inl n ↦ absurd (ground (arith, h, n, e))
      | inr (d, f) ↦
          let c' = probe_answer-Carries k r.addr (receive r rbuf) b d (omega (arith, small)) c f in
          goes_on r.more (probe_loop rs 32 (receive r rbuf) d) d b'
            (probe_loop-Reach rs (k + 1) 32 (receive r rbuf) d b' (omega (arith, small)) c')
            c'.reach (ground (arith, h, f, e))
    ]
  ]

-- Whatever comes in while it lasts, a search for switches that is made without a fault is steps of the
-- box, while the driver is loaded and the counter of the ids does not wrap within as many receipts.
pub virtual_switch_probe-Reach :
    (found : Bool) (rs : List Receipt) (stack : ℕ → ℕ) (b b' : VsBox) (ret : ℕ)
    → find_drv b.world.cb.driverq vs_drv_id ≢ none
    → b.world.cb.dev_id + length rs < 2 ^ 32
    → virtual_switch_probe found rs stack b ≡ some (ret, b')
    → Reach b.world b'.world
unfolding virtual_switch_probe
virtual_switch_probe-Reach found rs stack b b' ret known small e = elim (Bool-cases (not found)) [
  | inl h ↦
      subst (λ (x : VsBox). Reach b.world x.world) {x = b} {y = b'} (ground (arith, h, e))
        Reach.here
  | inr h ↦ elim (Option-cases (probe_loop rs 8 (record { size = 64; byte = stack }) b)) [
    | inl n ↦ absurd (ground (arith, h, n, e))
    | inr (d, f) ↦
        subst (λ (x : VsBox). Reach b.world x.world) {x = d} {y = b'} (ground (arith, h, f, e))
          (probe_loop-Reach b.world known rs 0 8 (record { size = 64; byte = stack }) b d
            (omega (arith, small))
            (record { reach = Reach.here; drivers = refl; next = omega arith; mem = refl }) f)
  ]
]
