-- ===== src/Zigbee/Steps.antt =====
-- The frames of the serial line as steps of the box of core_daemon/device.c.
use mathlib.Core.Path.{subst}
use hsbsw.Prelude.{
  ℕ, ◌+◌, ◌^◌, ◌<◌, ◌≡◌, ◌≢◌, arith, none, some, ◌==◌, Bool-cases, Option-cases, inl, inr,
}
use hsbsw.Codes.WorkMode
use hsbsw.Device.Types.{World, sample_op}
use hsbsw.Device.Find.{find_drv}
use hsbsw.Device.Event.{dev_status_updated, dev_sensor_triggered, dev_sensor_recovered, dev_ir_key}
use hsbsw.Codes.EvtType
use hsbsw.Device.System.{Step, Reach}
use hsbsw.Network.Field.{Buf, get_u16, advance}
use hsbsw.Zigbee.{CzBox, cz_drv, cz_dev_info, cz_key, cz_event, cz_status_updated}
use hsbsw.Zigbee.Frame.{deal_answer, deal_recv_buf, deal_unsolicited, monitor_frame}
use hsbsw.Zigbee.Ops.{memcpy}
use hsbsw.Zigbee.Cases.{
  >>=-some, deal_unsolicited_cases, monitor_frame_cases, cz_register_device_cases,
}

Step-Reach : {w w' : World} → Step w w' → Reach w w'
Step-Reach s = Reach.next Reach.here s

cz_key-Reach : (key : ℕ) (w : World) → Reach w (cz_key key w).1
unfolding cz_key
cz_key-Reach key w = elim (Bool-cases (key == WorkMode.home)) [
  | inl a ↦ rw a (Step-Reach (Step.sets_mode key))
  | inr a ↦ elim (Bool-cases (key == WorkMode.outside)) [
    | inl c ↦ rw (a, c) (Step-Reach (Step.sets_mode key))
    | inr c ↦ elim (Bool-cases (key == WorkMode.guard)) [
      | inl d ↦ rw (a, c, d) (Step-Reach (Step.sets_mode key))
      | inr d ↦ rw (a, c, d) Reach.here
    ]
  ]
]

cz_event-Reach :
    (devid id param param2 : ℕ) (w : World) → Reach w (cz_event devid id param param2 w)
unfolding cz_event dev_sensor_triggered dev_sensor_recovered dev_ir_key
cz_event-Reach devid id param param2 w = elim (Bool-cases (id == 0)) [
  | inl a ↦ rw a (Step-Reach (Step.happens devid EvtType.sensor_triggered param 0))
  | inr a ↦ elim (Bool-cases (id == 1)) [
    | inl c ↦ rw (a, c) (Step-Reach (Step.happens devid EvtType.sensor_recovered param 0))
    | inr c ↦ elim (Bool-cases (id == 2)) [
      | inl d ↦ rw (a, c, d) (cz_key-Reach param w)
      | inr d ↦ elim (Bool-cases (id == 3)) [
        | inl f ↦ rw (a, c, d, f) (Step-Reach (Step.happens devid EvtType.ir_key param param2))
        | inr f ↦ rw (a, c, d, f) Reach.here
      ]
    ]
  ]
]

cz_status_updated-Reach :
    (devid id val : ℕ) (w : World) → Reach w (cz_status_updated devid id val w)
unfolding cz_status_updated dev_status_updated
cz_status_updated-Reach devid id val w =
    Step-Reach (Step.happens devid EvtType.status_updated id val)

-- What a driver needs to report a device.
module _ (b : CzBox) (known : find_drv b.world.cb.driverq cz_drv.id ≢ none)
    (small : b.world.cb.dev_id + 1 < 2 ^ 32) where
  deal_unsolicited-Reach :
      (ptr : Buf) (cmd rlen short_addr end_point ret : ℕ) (b' : CzBox)
      → deal_unsolicited ptr cmd rlen short_addr end_point b ≡ some (ret, b')
      → Reach b.world b'.world
  deal_unsolicited-Reach ptr cmd rlen short_addr end_point ret b' =
      deal_unsolicited_cases (λ c. Reach b.world c.world) b b' ret ptr cmd rlen short_addr end_point
        Reach.here (λ pdev id param param2. cz_event-Reach pdev.id id param param2 b.world)
        (λ pdev id val. cz_status_updated-Reach pdev.id id val b.world)
        (λ info r c.
          cz_register_device_cases (λ d. Reach b.world d.world) short_addr end_point info b c r
            Reach.here
            (λ r' devid w e q.
              Step-Reach
                (Step.comes cz_drv.id (cz_dev_info info) sample_op r' devid w known small e)))

  deal_answer-world :
      (buf : Buf) (len trans_id ret : ℕ) (b' : CzBox)
      → deal_answer buf len trans_id b ≡ some (ret, b')
      → b.world ≡ b'.world
  unfolding deal_answer
  deal_answer-world buf len trans_id ret b' e =
      elim (Option-cases (memcpy b.ctl.recv_buf buf len)) [
        | inl m ↦ ground (arith, m, e)
        | inr (c, m) ↦ ground (arith, m, e)
      ]

  deal_recv_buf-Reach :
      (buf : Buf) (len ret : ℕ) (b' : CzBox)
      → deal_recv_buf buf len b ≡ some (ret, b')
      → Reach b.world b'.world
  unfolding deal_recv_buf
  deal_recv_buf-Reach buf len ret b' e =
      let (short_addr, e1, e) = >>=-some (get_u16 buf 6) _ _ e in
      let (end_point, e2, e) = >>=-some (get_u16 buf 8) _ _ e in
      let (trans_id, e3, e) = >>=-some (get_u16 buf 10) _ _ e in
      let (cmd, e4, e) = >>=-some (get_u16 (advance 12 buf) 0) _ _ e in
      let (rlen, e5, e) = >>=-some (get_u16 (advance 12 buf) 2) _ _ e in
      elim (Bool-cases (0 == trans_id)) [
        | inl z ↦
            deal_unsolicited-Reach (advance 12 buf) cmd rlen short_addr end_point ret b'
              (ground (arith, z, e))
        | inr z ↦
            subst (Reach b.world) (deal_answer-world buf len trans_id ret b' (ground (arith, z, e)))
              Reach.here
      ]

  -- Whatever bytes come in on the serial line, a frame that is dealt with without a fault is steps of
  -- the box, while the driver is loaded and the counter of the ids does not wrap: so it keeps what
  -- every step keeps.
  pub monitor_frame-Reach :
      (rbuf : Buf) (nread : ℕ) (body : ℕ → ℕ) (ret : ℕ) (b' : CzBox)
      → monitor_frame rbuf nread body ret b ≡ some b'
      → Reach b.world b'.world
  monitor_frame-Reach rbuf nread body ret b' =
      monitor_frame_cases (λ c. Reach b.world c.world) rbuf nread body ret b b' Reach.here
        (λ r cmd_len ret' c. deal_recv_buf-Reach r cmd_len ret' c)
