-- ===== src/Network/Tcp/Keeps.antt =====
-- The well-formedness of the devices under the packets of a client: every case of `deal_tcp_packet`
-- of core_daemon/network.c, and the loop over the packets of one read.
use mathlib.Core.Path.{subst}
use hsbsw.Prelude.{
  ℕ, zero, suc, ◌-◌, ◌≡◌, sym, ◌∙◌, arith, Bool, true, false, List, Option, none, some, ◌==◌,
  if◌then◌else◌, Bool-cases, Option-cases, inl, inr,
}
use hsbsw.Device.Types.{World, AsyncCtl}
use hsbsw.Device.System.Invariant.{IsValid}
use hsbsw.Device.System.Writes.{
  set_dev_timer-IsValid, del_dev_timer-IsValid, set_dev_delay-IsValid, del_dev_delay-IsValid,
  set_dev_linkage-IsValid, del_dev_linkage-IsValid,
}
use hsbsw.Network.Field.{Buf, get_u16, get_u32, ◌>>=◌, advance}
use hsbsw.Network.Request.{
  check_tcp_pkt_valid, reply_buf, Answer, answer, answer_later, deal_get_devs, deal_get_info,
  deal_get_status, deal_set_status, deal_do_action, deal_probe_dev,
}
use hsbsw.Network.Slots.{
  answer_result, deal_get_timer, deal_set_timer, deal_del_timer, deal_get_delay, deal_set_delay,
  deal_del_delay, deal_get_linkage, deal_set_linkage, deal_del_linkage,
}
use hsbsw.Codes.{minus_one}
use hsbsw.Device.Find.{find_dev}
use hsbsw.Device.Timers.{get_dev_timer}
use hsbsw.Device.Delays.{get_dev_delay}
use hsbsw.Device.Linkages.{get_dev_linkage}
use hsbsw.Network.Reply.{
  reply_result, reply_get_device_info, reply_get_timer, reply_get_delay, reply_get_linkage,
}
use hsbsw.Network.Tcp.Loop.{log-eq-done, tcp_loop_round, tcp_loop_fault}
use hsbsw.Network.Tcp.{dealt, Dealt, Run, deal_cmd, deal_tcp_packet, tcp_loop}

-- A handler's result: a fault, or a state in which the devices are well formed.
data Keeps {B : Type 0} (after : B → World) : Option B → Type 0 where
  faults : Keeps after none
  keeps : (b : B) → IsValid (after b).cb → Keeps after (some b)

-- The state in an answer.
abbrev world_of : Answer → World
world_of a = a.world

abbrev world_left : Dealt → World
world_left d = d.world

module _ {B : Type 0} (after : B → World) where
  Keeps-bind {ℓ} :
      {A : Type ℓ} (o : Option A) (f : A → Option B)
      → ((a : A) → Keeps after (f a))
      → Keeps after (o >>= f)
  Keeps-bind none f h = faults
  Keeps-bind (some a) f h = h a

  Keeps-if :
      (b : Bool) (x y : Option B) → Keeps after x → Keeps after y → Keeps after (if b then x else y)
  Keeps-if true x y h k = h
  Keeps-if false x y h k = k

  Keeps-some : (o : Option B) (b : B) → Keeps after o → o ≡ some b → IsValid (after b).cb
  Keeps-some none b faults e = absurd (cc)
  Keeps-some (some c) b (keeps _ v) e =
      let same : c ≡ b = ground arith in subst (λ (x : B). IsValid (after x).cb) same v

Keeps-answer : (w : World) (o : Option (Buf × ℕ)) → IsValid w.cb → Keeps world_of (answer w o)
Keeps-answer w none v = faults
Keeps-answer w (some (b, rlen)) v = keeps _ v

Keeps-later : (w : World) (r : ℕ × AsyncCtl) → IsValid w.cb → Keeps world_of (answer_later w r)
Keeps-later w (ret, async) v =
    keeps _ (record { online = v.online; offline = v.offline; ids = v.ids })

ruleset kept = (Keeps-bind, Keeps-if, Keeps-answer, Keeps-later, Keeps.faults)

Keeps-result : (r : ℕ × World) → IsValid r.1.cb → Keeps world_of (answer_result r)
unfolding answer_result
Keeps-result (ret, w) v = search (kept, v)

Keeps-get_devs : (w : World) → IsValid w.cb → Keeps world_of (deal_get_devs w)
unfolding deal_get_devs
Keeps-get_devs w v = search (kept, v)

Keeps-get_status :
    (buf : Buf) (reply : Option ℕ) (w : World)
    → IsValid w.cb
    → Keeps world_of (deal_get_status buf reply w)
unfolding deal_get_status
Keeps-get_status buf reply w v = search (kept, v)

Keeps-probe :
    (buf : Buf) (reply : Option ℕ) (w : World)
    → IsValid w.cb
    → Keeps world_of (deal_probe_dev buf reply w)
unfolding deal_probe_dev
Keeps-probe buf reply w v = search (kept, v)

Keeps-set_status :
    (buf : Buf) (len : ℕ) (reply : Option ℕ) (w : World)
    → IsValid w.cb
    → Keeps world_of (deal_set_status buf len reply w)
unfolding deal_set_status
Keeps-set_status buf len reply w v = search (kept, v)

Keeps-do_action :
    (buf : Buf) (reply : Option ℕ) (w : World)
    → IsValid w.cb
    → Keeps world_of (deal_do_action buf reply w)
unfolding deal_do_action
Keeps-do_action buf reply w v = search (kept, v) depth 12

Keeps-elim :
    {A : Type 0} (w : World) (o : Option A) (x : Option (Buf × ℕ)) (f : A → Option (Buf × ℕ))
    → IsValid w.cb
    → Keeps world_of (elim o [ none ↦ answer w x | some a ↦ answer w (f a) ])
Keeps-elim w none x f v = Keeps-answer w x v
Keeps-elim w (some a) x f v = Keeps-answer w (f a) v

Keeps-get_info : (buf : Buf) (w : World) → IsValid w.cb → Keeps world_of (deal_get_info buf w)
unfolding deal_get_info
Keeps-get_info buf w v = Keeps-bind world_of (get_u32 buf 4) _ (λ i.
    Keeps-elim w (find_dev w.cb.queue i) (reply_result minus_one reply_buf)
      (λ dev. reply_get_device_info dev reply_buf) v)

Keeps-get_timer : (buf : Buf) (w : World) → IsValid w.cb → Keeps world_of (deal_get_timer buf w)
unfolding deal_get_timer
Keeps-get_timer buf w v = Keeps-bind world_of (get_u32 buf 4) _ (λ i.
    Keeps-bind world_of (get_u16 buf 8) _ (λ k.
      Keeps-elim w (get_dev_timer i k w).1 (reply_result (get_dev_timer i k w).0 reply_buf)
        (λ x. reply_get_timer i x reply_buf) v))

Keeps-set_timer : (buf : Buf) (w : World) → IsValid w.cb → Keeps world_of (deal_set_timer buf w)
unfolding deal_set_timer
Keeps-set_timer buf w v = search (kept, Keeps-result, set_dev_timer-IsValid, v) depth 7

Keeps-del_timer : (buf : Buf) (w : World) → IsValid w.cb → Keeps world_of (deal_del_timer buf w)
unfolding deal_del_timer
Keeps-del_timer buf w v = search (kept, Keeps-result, del_dev_timer-IsValid, v) depth 7

Keeps-get_delay : (buf : Buf) (w : World) → IsValid w.cb → Keeps world_of (deal_get_delay buf w)
unfolding deal_get_delay
Keeps-get_delay buf w v = Keeps-bind world_of (get_u32 buf 4) _ (λ i.
    Keeps-bind world_of (get_u16 buf 8) _ (λ k.
      Keeps-elim w (get_dev_delay i k w).1 (reply_result (get_dev_delay i k w).0 reply_buf)
        (λ x. reply_get_delay i x reply_buf) v))

Keeps-set_delay : (buf : Buf) (w : World) → IsValid w.cb → Keeps world_of (deal_set_delay buf w)
unfolding deal_set_delay
Keeps-set_delay buf w v = search (kept, Keeps-result, set_dev_delay-IsValid, v) depth 7

Keeps-del_delay : (buf : Buf) (w : World) → IsValid w.cb → Keeps world_of (deal_del_delay buf w)
unfolding deal_del_delay
Keeps-del_delay buf w v = search (kept, Keeps-result, del_dev_delay-IsValid, v) depth 7

Keeps-get_linkage : (buf : Buf) (w : World) → IsValid w.cb → Keeps world_of (deal_get_linkage buf w)
unfolding deal_get_linkage
Keeps-get_linkage buf w v = Keeps-bind world_of (get_u32 buf 4) _ (λ i.
    Keeps-bind world_of (get_u16 buf 8) _ (λ k.
      Keeps-elim w (get_dev_linkage i k w).1 (reply_result (get_dev_linkage i k w).0 reply_buf)
        (λ x. reply_get_linkage i x reply_buf) v))

Keeps-set_linkage : (buf : Buf) (w : World) → IsValid w.cb → Keeps world_of (deal_set_linkage buf w)
unfolding deal_set_linkage
Keeps-set_linkage buf w v = search (kept, Keeps-result, set_dev_linkage-IsValid, v) depth 7

Keeps-del_linkage : (buf : Buf) (w : World) → IsValid w.cb → Keeps world_of (deal_del_linkage buf w)
unfolding deal_del_linkage
Keeps-del_linkage buf w v = search (kept, Keeps-result, del_dev_linkage-IsValid, v) depth 7

Keeps-deal_cmd :
    (cmd : ℕ) (buf : Buf) (len : ℕ) (reply : Option ℕ) (w : World)
    → IsValid w.cb
    → Keeps world_of (deal_cmd cmd buf len reply w)
unfolding deal_cmd
Keeps-deal_cmd cmd buf len reply w v =
    search
      (
        Keeps-if, Keeps-answer, Keeps-get_devs, Keeps-get_info, Keeps-get_status, Keeps-set_status,
        Keeps-get_timer, Keeps-set_timer, Keeps-del_timer, Keeps-get_delay, Keeps-set_delay,
        Keeps-del_delay, Keeps-get_linkage, Keeps-set_linkage, Keeps-del_linkage, Keeps-do_action,
        Keeps-probe, v,
      )
      depth 20

Keeps-dealt :
    (used : ℕ) (o : Option Answer)
    → Keeps world_of o
    → Keeps world_left (o >>= λ a. some (dealt used a))
Keeps-dealt used none faults = faults
Keeps-dealt used (some a) (keeps _ v) = keeps _ v

Keeps-packet :
    (buf : Buf) (len : ℕ) (reply : Option ℕ) (w : World)
    → IsValid w.cb
    → Keeps world_left (deal_tcp_packet buf len reply w)
unfolding deal_tcp_packet
Keeps-packet buf len reply w v = Keeps-bind world_left (check_tcp_pkt_valid buf len) _ (λ invalid.
    Keeps-if world_left (invalid == 0) _ _
      (Keeps-bind world_left (get_u16 buf 0) _ (λ cmd.
        Keeps-bind world_left (get_u16 buf 2) _ (λ cmdlen.
          Keeps-dealt cmdlen (deal_cmd cmd buf len reply w)
            (Keeps-deal_cmd cmd buf len reply w v))))
      (keeps _ v))

-- A packet of a client, valid or not, leaves the devices well formed.
pub deal_tcp_packet-IsValid :
    (buf : Buf) (len : ℕ) (reply : Option ℕ) (w : World) (d : Dealt)
    → IsValid w.cb
    → deal_tcp_packet buf len reply w ≡ some d
    → IsValid d.world.cb
deal_tcp_packet-IsValid buf len reply w d v e =
    Keeps-some world_left (deal_tcp_packet buf len reply w) d (Keeps-packet buf len reply w v) e

moved : (w w' : World) → w ≡ w' → IsValid w.cb → IsValid w'.cb
moved w w' e v = subst (λ (x : World). IsValid x.cb) e v

-- However many packets a read brings, and whatever they ask for, devices that are well formed before
-- are so when the loop over them has come to its end.
pub tcp_loop-IsValid :
    (fuel : ℕ) (buf : Buf) (left : ℕ) (reply : Option ℕ) (w w' : World) (out : List (Buf × ℕ))
    → IsValid w.cb
    → tcp_loop fuel buf left reply w ≡ Run.done out w'
    → IsValid w'.cb
unfolding tcp_loop
tcp_loop-IsValid zero buf left reply w w' out v e = moved w w' (ground (arith, e)) v
tcp_loop-IsValid (suc fuel) buf left reply w w' out v e = elim (Bool-cases (left == 0)) [
  | inl h ↦ moved w w' (ground (arith, e, h)) v
  | inr h ↦ elim (Option-cases (deal_tcp_packet buf left reply w)) [
    | inl f ↦ absurd (ground (arith, tcp_loop_fault fuel buf left reply w (ground (arith, h)) f, e))
    | inr (d, f) ↦
        let (out', rest) =
          log-eq-done d (tcp_loop fuel (advance d.used buf) (left - d.used) reply d.world) out w'
            (sym (tcp_loop_round fuel buf left reply w d (ground (arith, h)) f) ∙ e) in
        tcp_loop-IsValid fuel (advance d.used buf) (left - d.used) reply d.world w' out'
          (deal_tcp_packet-IsValid buf left reply w d v f) rest
  ]
]
