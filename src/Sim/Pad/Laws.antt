-- ===== src/Sim/Pad/Laws.antt =====
-- The packets of misc/pad_sim.c as core_daemon/network.c deals with them.
use hsbsw.Prelude.{
  ℕ, ◌<◌, ◌^◌, ◌≡◌, true, false, refl, ap, ◌∷◌, Option, none, some, ◌==◌, arith, replicate,
}
use hsbsw.Codes.{minus_one, act_type_remote_control}
use hsbsw.Device.Types.{World}
use hsbsw.Device.Find.{find_dev}
use hsbsw.Device.Async.{
  probe_dev_async, set_dev_status_async, get_dev_status_async, set_dev_action_async,
}
use hsbsw.Device.Timers.{get_dev_timer, del_dev_timer}
use hsbsw.Network.Field.{Buf, ◌>>=◌, get_u16, get_u32}
use hsbsw.Network.RoundTrip.{word16, word32}
use hsbsw.Network.Reply.{reply_result, reply_get_device_info, reply_get_timer}
use hsbsw.Network.Request.{
  Answer, answer, answer_later, reply_buf, check_tcp_pkt_valid, deal_get_devs, deal_get_info,
  deal_get_status, deal_set_status, deal_do_action, deal_probe_dev, get_dev_status, read_status,
  status_num, status_total,
}
use hsbsw.Network.Slots.{answer_result, deal_get_timer, deal_del_timer}
use hsbsw.Network.Tcp.{Dealt, dealt, deal_cmd, deal_tcp_packet}
use hsbsw.Sim.{Datagram}
use hsbsw.Sim.Laws.{arrived}
use hsbsw.Sim.Pad.{Line, pad_request}

-- What the box is to do, from the numbers in the line alone.
abbrev pub meant : Line → Option ℕ → World → Option Answer
meant Line.get_devices reply w = deal_get_devs w
meant Line.invalid reply w = none
meant (Line.get_info dev_id) reply w = elim (find_dev w.cb.queue dev_id) [
  | none ↦ answer w (reply_result minus_one reply_buf)
  | some dev ↦ answer w (reply_get_device_info dev reply_buf)
]
meant (Line.get_status dev_id) reply w =
    answer_later w (get_dev_status_async dev_id reply w.cb.async)
meant (Line.probe drv_id) reply w = answer_later w (probe_dev_async drv_id reply w.cb.async)
meant (Line.set_status dev_id id val) reply w = answer_later w (
    set_dev_status_async
      (record { devid = dev_id; num = 1; id = id ∷ replicate 7 0; val = val ∷ replicate 7 0 }) reply
      w.cb.async)
meant (Line.get_timer dev_id timer_id) reply w =
    let (ret, o) = get_dev_timer dev_id timer_id w in
    elim o [
      | none ↦ answer w (reply_result ret reply_buf)
      | some tm ↦ answer w (reply_get_timer dev_id tm reply_buf)
    ]
meant (Line.set_timer dev_id timer_id) reply w = none
meant (Line.del_timer dev_id timer_id) reply w = answer_result (del_dev_timer dev_id timer_id w)
meant (Line.action dev_id id param1 param2) reply w = answer_later w (
    set_dev_action_async (record { devid = dev_id; id = id; param1 = param1; param2 = param2 })
      reply w.cb.async)

-- The numbers of a line that lead to a packet fit their fields; an action is not a remote control's.
abbrev pub Fits : Line → Type 0
Fits Line.get_devices = Unit
Fits Line.invalid = true ≡ false
Fits (Line.get_info dev_id) = dev_id < 2 ^ 32
Fits (Line.get_status dev_id) = dev_id < 2 ^ 32
Fits (Line.probe drv_id) = drv_id < 2 ^ 16
Fits (Line.set_status dev_id id val) = (dev_id < 2 ^ 32) × (id < 2 ^ 16) × (val < 2 ^ 16)
Fits (Line.get_timer dev_id timer_id) = (dev_id < 2 ^ 32) × (timer_id < 2 ^ 16)
Fits (Line.set_timer dev_id timer_id) = true ≡ false
Fits (Line.del_timer dev_id timer_id) = (dev_id < 2 ^ 32) × (timer_id < 2 ^ 16)
Fits (Line.action dev_id id param1 param2) =
    (dev_id < 2 ^ 32)
    × (id < 2 ^ 16)
    × (param1 < 2 ^ 16)
    × (param2 < 2 ^ 32)
    × ((id == act_type_remote_control) ≡ false)

-- The line is written as a packet, and the box deals with the packet as the line means.
abbrev pub Understood : (ℕ → ℕ) → Option ℕ → World → Line → Type 0
Understood stack reply w line =
    (d : Datagram) × (pad_request line ≡ some d)
    × (deal_tcp_packet (arrived stack 1024 d.0 d.1) d.1 reply w
        ≡ (meant line reply w >>= (λ a. some (dealt d.1 a))))

-- What the box does is what it does for the numbers that it reads.
abbrev done : Line → Option ℕ → World → ℕ → Option Dealt
done line reply w len = meant line reply w >>= (λ a. some (dealt len a))

do_action-meant :
    (buf : Buf) (dev_id id param1 param2 : ℕ) (reply : Option ℕ) (w : World)
    → get_u32 buf 4 ≡ some dev_id
    → get_u16 buf 8 ≡ some id
    → get_u16 buf 10 ≡ some param1
    → get_u32 buf 12 ≡ some param2
    → (id == act_type_remote_control) ≡ false
    → deal_do_action buf reply w ≡ meant (Line.action dev_id id param1 param2) reply w
unfolding deal_do_action
do_action-meant buf dev_id id param1 param2 reply w d i p q f = rw (d, i, p, q, f) refl

module _ (stack : ℕ → ℕ) (reply : Option ℕ) (w : World) where
  device-Understood :
      (v : ℕ)
      → v < 2 ^ 32
      → Understood stack reply w (Line.get_info v) × Understood stack reply w (Line.get_status v)
  unfolding pad_request deal_tcp_packet check_tcp_pkt_valid get_u16 deal_cmd deal_get_info get_u32
      deal_get_status
  device-Understood v h = (
    (_, refl, ap (λ (x : ℕ). done (Line.get_info x) reply w 8) (word32 v h)),
    (_, refl, ap (λ (x : ℕ). done (Line.get_status x) reply w 8) (word32 v h)),
  )

  probe-Understood : (v : ℕ) → v < 2 ^ 16 → Understood stack reply w (Line.probe v)
  unfolding pad_request deal_tcp_packet check_tcp_pkt_valid get_u16 deal_cmd deal_probe_dev
  probe-Understood v h = (_, refl, ap (λ (x : ℕ). done (Line.probe x) reply w 8) (word16 v h))

  timer-Understood :
      (dev_id timer_id : ℕ)
      → dev_id < 2 ^ 32
      → timer_id < 2 ^ 16
      → Understood stack reply w (Line.get_timer dev_id timer_id)
        × Understood stack reply w (Line.del_timer dev_id timer_id)
  unfolding pad_request deal_tcp_packet check_tcp_pkt_valid get_u16 deal_cmd deal_get_timer
      deal_del_timer get_u32
  timer-Understood dev_id timer_id h k =
      let both : (f : ℕ → ℕ → Line)
          → done (f _ _) reply w 12 ≡ done (f dev_id timer_id) reply w 12 =
        λ f. λ i. done (f (word32 dev_id h i) (word16 timer_id k i)) reply w 12 in
      ((_, refl, both Line.get_timer), (_, refl, both Line.del_timer))

  set_status-Understood :
      (dev_id id val : ℕ)
      → dev_id < 2 ^ 32
      → id < 2 ^ 16
      → val < 2 ^ 16
      → Understood stack reply w (Line.set_status dev_id id val)
  unfolding pad_request deal_tcp_packet check_tcp_pkt_valid get_u16 deal_cmd deal_set_status
      get_dev_status read_status status_num status_total get_u32
  set_status-Understood dev_id id val h k l = (
    _,
    refl,
    λ i. done (Line.set_status (word32 dev_id h i) (word16 id k i) (word16 val l i)) reply w 12,
  )

  action-Understood :
      (dev_id id param1 param2 : ℕ)
      → Fits (Line.action dev_id id param1 param2)
      → Understood stack reply w (Line.action dev_id id param1 param2)
  unfolding pad_request deal_tcp_packet check_tcp_pkt_valid get_u16 deal_cmd get_u32
  action-Understood dev_id id param1 param2 f = (
    _,
    refl,
    ap (λ (o : Option Answer). o >>= (λ a. some (dealt 16 a)))
        (do_action-meant _ dev_id id param1 param2 reply w (ap some (word32 dev_id f.0))
          (ap some (word16 id f.1)) (ap some (word16 param1 f.2)) (ap some (word32 param2 f.3))
          f.4),
  )

  -- Every line of the simulated client but "set timer", with numbers that fit their fields, is written
  -- as a packet that the box deals with as the line means, whatever the box's buffer held before;
  -- for an action this holds if it is not a remote control's.
  pub pad_request-Understood : (line : Line) → Fits line → Understood stack reply w line
  unfolding pad_request deal_tcp_packet check_tcp_pkt_valid get_u16 deal_cmd
  pad_request-Understood Line.get_devices f = (_, refl, refl)
  pad_request-Understood Line.invalid f = absurd (ground (arith, f))
  pad_request-Understood (Line.get_info v) f = (device-Understood v f).0
  pad_request-Understood (Line.get_status v) f = (device-Understood v f).1
  pad_request-Understood (Line.probe v) f = probe-Understood v f
  pad_request-Understood (Line.set_status d i v) f = set_status-Understood d i v f.0 f.1 f.2
  pad_request-Understood (Line.get_timer d t) f = (timer-Understood d t f.0 f.1).0
  pad_request-Understood (Line.set_timer d t) f = absurd (ground (arith, f))
  pad_request-Understood (Line.del_timer d t) f = (timer-Understood d t f.0 f.1).1
  pad_request-Understood (Line.action d i p q) f = action-Understood d i p q f
