-- ===== src/Sim/Pad/Ask.antt =====
-- A line of the simulated client, the box's answer to it, and what the client shows of the answer.
use hsbsw.Prelude.{ℕ, ◌≡◌, refl, sym, arith, Option, none, some, ap, inl, inr, Option-cases}
use mathlib.Core.Path.{subst}
use hsbsw.Codes.{minus_one}
use hsbsw.Device.Types.{World}
use hsbsw.Device.Find.{find_dev, get_dev_id_list}
use hsbsw.Device.Timers.{get_dev_timer, del_dev_timer}
use hsbsw.Network.Field.{◌>>=◌}
use hsbsw.Network.Request.{answer, deal_get_devs}
use hsbsw.Network.Slots.{answer_result}
use hsbsw.Network.Tcp.{deal_tcp_packet}
use hsbsw.Sim.Laws.{arrived}
use hsbsw.Sim.Pad.{Line, pad_request}
use hsbsw.Sim.Pad.Laws.{Fits, meant, pad_request-Understood}
use hsbsw.Sim.Pad.Shown.{Shown, deal_tcp_pkt}
use hsbsw.Sim.Pad.Shown.Written.{
  Reply, dev_ids, device_info, timer, outcome, sent, about, FitsReply,
}
use hsbsw.Sim.Pad.Shown.Replies.{deal_tcp_pkt-sent}

-- What is shown for a line, and the box's state afterwards; `stack` is what the buffers held before.
unfoldable pub ask : (ℕ → ℕ) → Option ℕ → Line → World → Option (Shown × World)
ask stack reply line w = do
  d ← pad_request line
  a ← deal_tcp_packet (arrived stack 1024 d.0 d.1) d.1 reply w
  s ← deal_tcp_pkt (arrived stack 1024 a.reply a.rlen)
  some (s, a.world)

-- The lines that the box answers at once, and with what, from its tables.
abbrev pub reply_to : Line → World → Option Reply
reply_to Line.get_devices w = some (dev_ids (get_dev_id_list w.cb.queue))
reply_to (Line.get_info dev_id) w = elim (find_dev w.cb.queue dev_id) [
  | none ↦ some (outcome minus_one)
  | some dev ↦ some (device_info dev)
]
reply_to (Line.get_timer dev_id timer_id) w = elim (get_dev_timer dev_id timer_id w).1 [
  | none ↦ some (outcome (get_dev_timer dev_id timer_id w).0)
  | some tm ↦ some (timer dev_id tm)
]
reply_to (Line.del_timer dev_id timer_id) w = some (outcome (del_dev_timer dev_id timer_id w).0)
reply_to line w = none

-- The state that the line leaves.
abbrev pub after : Line → World → World
after (Line.del_timer dev_id timer_id) w = (del_dev_timer dev_id timer_id w).1
after line w = w

some_eq : {a b : Reply} → some a ≡ some b → a ≡ b
some_eq e = cc

meant-reply_to :
    (line : Line) (reply : Option ℕ) (w : World) (r : Reply)
    → reply_to line w ≡ some r
    → FitsReply r
    → meant line reply w ≡ answer (after line w) (sent r)
unfolding answer_result deal_get_devs
meant-reply_to Line.get_devices reply w r e f =
    let q = some_eq e in
    let few = (subst FitsReply (sym q) f).0 in
    subst (λ x. deal_get_devs w ≡ answer w (sent x)) q (ground (arith, few))
meant-reply_to Line.invalid reply w r e f = absurd (ground (arith, e))
meant-reply_to (Line.get_info v) reply w r e f = elim (Option-cases (find_dev w.cb.queue v)) [
  | inl n ↦ ground (arith, e, n)
  | inr (dev, m) ↦ ground (arith, e, m)
]
meant-reply_to (Line.get_status v) reply w r e f = absurd (ground (arith, e))
meant-reply_to (Line.probe v) reply w r e f = absurd (ground (arith, e))
meant-reply_to (Line.set_status d i v) reply w r e f = absurd (ground (arith, e))
meant-reply_to (Line.get_timer d t) reply w r e f = elim (Option-cases (get_dev_timer d t w).1) [
  | inl n ↦ ground (arith, e, n)
  | inr (tm, m) ↦ ground (arith, e, m)
]
meant-reply_to (Line.set_timer d t) reply w r e f = absurd (ground (arith, e))
meant-reply_to (Line.del_timer d t) reply w r e f =
    ap (λ x. answer (del_dev_timer d t w).1 (sent x)) (some_eq e)
meant-reply_to (Line.action d i p q) reply w r e f = absurd (ground (arith, e))

module _ (stack : ℕ → ℕ) (reply : Option ℕ) where
  -- For a line that asks for the devices, for one device, or for or against a timer, whose numbers fit
  -- their fields, and whose answer fits, too: the client shows what the box's tables say, and only
  -- deleting a timer changes the box's state, by `del_dev_timer`.
  pub ask-reply_to :
      (line : Line) (w : World) (r : Reply)
      → Fits line
      → reply_to line w ≡ some r
      → FitsReply r
      → ask stack reply line w ≡ some (about r, after line w)
  unfolding ask
  ask-reply_to line w r f e g =
      let (d, p, q) = pad_request-Understood stack reply w line f in
      let (b, n, s, t) = deal_tcp_pkt-sent stack r g in
      rw (p, q, meant-reply_to line reply w r e g, s, t) refl
