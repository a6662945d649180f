-- ===== src/Zigbee/Requests.antt =====
-- What a request of core_daemon/driver_cg_zigbee.c writes to the line, and what it makes of an answer.
use hsbsw.Prelude.{
  ℕ, ◌+◌, ◌*◌, ◌%◌, ◌^◌, ◌<◌, ◌≤◌, ◌≡◌, refl, sym, ap, ◌∙◌, arith, Bool, true, false, List, Option,
  none, some, ◌==◌, ltb, not, if◌then◌else◌, length,
}
use hsbsw.Codes.Error
use hsbsw.Device.Types.{Action}
use hsbsw.Network.Field.{Buf, get_u16, get_u32}
use hsbsw.Network.RoundTrip.{word16, word32}
use hsbsw.Zigbee.Bytes.{first_bytes, length-first_bytes, same_byte}
use hsbsw.Zigbee.{CzCtl, CzDev, CzBox, cz_find_by_id}
use hsbsw.Zigbee.Ops.{
  memcpy, post, finish, cz_result, cz_do_action, cz_check_result, exchange, action_frame,
  sample_set_action,
}
use hsbsw.Zigbee.Answers.{
  receive_all, latest, kept, received, chosen, receive_all-latest, receive_all-kept,
}

-- The box while a request waits that has posted `n` bytes.
abbrev pub waiting : Buf → ℕ → CzBox → CzBox
waiting w n b = record b {
  ctl = record (b.ctl) {
    is_waiting = true;
    send_buf = record (b.ctl.send_buf) {
      byte = λ i. if ltb i n then w.byte i else b.ctl.send_buf.byte i;
    };
    send_len = n;
  };
}

-- What an answer says about the request: `len` bytes, with the header.
abbrev pub verdict : Buf → ℕ → ℕ
verdict buf len =
    if not (buf.byte 12 + 256 * buf.byte 13 == cz_result)
    then Error.invalid_msg
    else if not (buf.byte 14 + 256 * buf.byte 15 + 12 == len)
    then Error.invalid_msg
    else if buf.byte 16 + 256 * buf.byte 17 == 0
    then Error.act_failed
    else Error.ok

post-some :
    (w : Buf) (n : ℕ) (b : CzBox)
    → n ≤ w.size
    → n ≤ b.ctl.send_buf.size
    → post w n (record (b.ctl) { is_waiting = true }) ≡ some (waiting w n b).ctl
unfolding post memcpy
post-some w n b h k = ground (arith, h, k)

cz_check_result-verdict :
    (c : CzCtl) (buf : Buf) (len : ℕ)
    → 18 ≤ len
    → 18 ≤ c.recv_buf.size
    → c.recv_len ≡ len
    → received c ≡ first_bytes len buf.byte
    → cz_check_result c ≡ some (verdict buf len)
unfolding cz_check_result get_u16
cz_check_result-verdict c buf len long room l e = ground (
  arith,
  room,
  l,
  b 12 (omega arith),
  b 13 (omega arith),
  b 14 (omega arith),
  b 15 (omega arith),
  b 16 (omega arith),
  b 17 (omega arith),
)
  where
    b : (i : ℕ) → i < 18 → c.recv_buf.byte i ≡ buf.byte i
    b i h = same_byte c.recv_len len c.recv_buf.byte buf.byte i e (omega arith) (omega arith)

-- An answer that has come in while the request waits is read as what it says.
exchange-verdict :
    (wait : CzBox → Bool × CzBox) (w : Buf) (n : ℕ) (b woken : CzBox) (fs : List (Buf × ℕ))
    (buf : Buf) (len : ℕ)
    → n ≤ w.size
    → n ≤ b.ctl.send_buf.size
    → 18 ≤ b.ctl.recv_buf.size
    → 18 ≤ len
    → 0 < b.ctl.trans_id
    → latest b.ctl.trans_id fs ≡ some (buf, len)
    → receive_all fs (waiting w n b) ≡ some woken
    → wait (waiting w n b) ≡ (false, woken)
    → exchange wait Error.others cz_check_result w n b ≡ some (verdict buf len, finish woken)
unfolding exchange
exchange-verdict wait w n b woken fs buf len room room' room'' long t l r e =
    rw (post-some w n b room room', e, checked) refl
  where
    same : received woken.ctl ≡ first_bytes len buf.byte
    same =
        receive_all-latest fs (waiting w n b) woken refl t r
        ∙ ap (chosen (received (waiting w n b).ctl)) l

    kept_ctl : kept woken.ctl ≡ kept (waiting w n b).ctl
    kept_ctl = receive_all-kept fs (waiting w n b) woken r

    checked : cz_check_result woken.ctl ≡ some (verdict buf len)
    checked =
        cz_check_result-verdict woken.ctl buf len long (omega (arith, ap (λ x. x.2) kept_ctl))
          (sym (length-first_bytes woken.ctl.recv_len woken.ctl.recv_buf.byte)
            ∙ ap length same
            ∙ length-first_bytes len buf.byte)
          same

action_frame-size :
    (stack : ℕ → ℕ) (act : Action) (pdev : CzDev) (t : ℕ) (w : Buf)
    → action_frame stack act pdev t ≡ some w
    → w.size ≡ 64
unfolding action_frame
action_frame-size stack act pdev t w a = sym (ap size_or a)
  where
    size_or : Option Buf → ℕ
    size_or none = 64
    size_or (some w) = w.size

-- A device and an action whose fields have values of their C types, and so has the transaction id.
pub record FitsFrame (act : Action) (pdev : CzDev) (t : ℕ) : Type 0 where
  pub short_addr : pdev.short_addr < 2 ^ 16
  pub end_point : pdev.end_point < 2 ^ 16
  pub trans_id : t < 2 ^ 16
  pub id : act.id < 2 ^ 16
  pub param1 : act.param1 < 2 ^ 16
  pub param2 : act.param2 < 2 ^ 32

-- For fields that fit their widths, the frame of an action is written without a fault, whatever the
-- stack held, and carries the magic number, its length, the address, the transaction id and the
-- action, where the layout of the protocol has them.
pub action_frame-fields :
    (stack : ℕ → ℕ) (act : Action) (pdev : CzDev) (t : ℕ)
    → FitsFrame act pdev t
    → (w : Buf) × (action_frame stack act pdev t ≡ some w)
      × (get_u16 w 0 ≡ some 0x55aa)
      × (get_u16 w 2 ≡ some 24)
      × (get_u16 w 6 ≡ some pdev.short_addr)
      × (get_u16 w 8 ≡ some pdev.end_point)
      × (get_u16 w 10 ≡ some t)
      × (get_u16 w 12 ≡ some cz_do_action)
      × (get_u16 w 14 ≡ some 12)
      × (get_u16 w 16 ≡ some act.id)
      × (get_u16 w 18 ≡ some act.param1)
      × (get_u32 w 20 ≡ some act.param2)
unfolding action_frame get_u16 get_u32
action_frame-fields stack act pdev t f = (
  _,
  refl,
  refl,
  refl,
  ap some (word16 pdev.short_addr f.short_addr),
  ap some (word16 pdev.end_point f.end_point),
  ap some (word16 t f.trans_id),
  refl,
  refl,
  ap some (word16 act.id f.id),
  ap some (word16 act.param1 f.param1),
  ap some (word32 act.param2 f.param2),
)

-- A request to a device that is in the list, with a transaction id other than 0, to which frames come
-- in while it waits: if the last of them with its id has at least 18 bytes, then its result is what
-- that frame says. Afterwards no request waits, the transaction id is the next one of 16 bits, and
-- all else is as the frames have left it.
pub sample_set_action-verdict :
    (stack : ℕ → ℕ) (wait : CzBox → Bool × CzBox) (act : Action) (b woken : CzBox) (pdev : CzDev)
    (w : Buf) (fs : List (Buf × ℕ)) (buf : Buf) (len : ℕ)
    → cz_find_by_id b.queue act.devid ≡ some pdev
    → action_frame stack act pdev b.ctl.trans_id ≡ some w
    → 24 ≤ b.ctl.send_buf.size
    → 18 ≤ b.ctl.recv_buf.size
    → 0 < b.ctl.trans_id
    → latest b.ctl.trans_id fs ≡ some (buf, len)
    → 18 ≤ len
    → receive_all fs (waiting w 24 b) ≡ some woken
    → wait (waiting w 24 b) ≡ (false, woken)
    → sample_set_action stack wait act b
      ≡ some (
        verdict buf len,
        record woken {
          ctl = record (woken.ctl) { is_waiting = false; trans_id = (b.ctl.trans_id + 1) % 2 ^ 16 };
        },
      )
unfolding sample_set_action
sample_set_action-verdict stack wait act b woken pdev w fs buf len d a room room' t l long r e =
    rw (sample_set_action, d, a)
      (exchange-verdict wait w 24 b woken fs buf len
        (omega (arith, action_frame-size stack act pdev b.ctl.trans_id w a)) room room' long t l r
        e)
    ∙ ap
        (λ (t : ℕ). some (
          verdict buf len,
          record woken {
            ctl = record (woken.ctl) { is_waiting = false; trans_id = (t + 1) % 2 ^ 16 };
          },
        ))
        (ap (λ x. x.1) (receive_all-kept fs (waiting w 24 b) woken r))
