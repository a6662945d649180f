-- ===== src/Zigbee/Answers.antt =====
-- How an answer finds its request in core_daemon/driver_cg_zigbee.c: by the transaction id.
use mathlib.Core.Option.{some-injective}
use hsbsw.Prelude.{
  ◌∙◌, ℕ, ◌+◌, ◌*◌, ◌<◌, ◌≡◌, refl, sym, ap, arith, Bool, true, false, List, [], ◌∷◌, Option, none,
  some, ◌==◌, ltb, not, ◌&&◌, if◌then◌else◌, Bool-cases, Option-cases, inl, inr,
}
use hsbsw.Network.Field.{Buf, ◌>>=◌, get_u16, advance}
use hsbsw.Zigbee.Bytes.{first_bytes, first_bytes-cong}
use hsbsw.Zigbee.{CzCtl, CzBox}
use hsbsw.Zigbee.Frame.{deal_answer, deal_recv_buf, deal_unsolicited}
use hsbsw.Zigbee.Ops.{memcpy}
use hsbsw.Zigbee.Cases.{>>=-some, deal_unsolicited_cases, cz_register_device_cases}

-- The transaction id in the header of a frame.
abbrev pub frame_id : Buf → ℕ
frame_id buf = buf.byte 10 + 256 * buf.byte 11

-- The frame answers the request that waits.
abbrev pub is_mine : CzCtl → Buf → Bool
is_mine c buf = not (0 == frame_id buf) && (frame_id buf == c.trans_id) && c.is_waiting

-- `n` bytes of a frame over the last answer
abbrev pub overlay : CzCtl → Buf → ℕ → CzCtl
overlay c buf len = record c {
  recv_buf = record (c.recv_buf) {
    byte = λ i. if ltb i len then buf.byte i else c.recv_buf.byte i;
  };
  recv_len = len;
}

get_u16-some :
    (buf : Buf) (off v : ℕ) → get_u16 buf off ≡ some v → buf.byte off + 256 * buf.byte (off + 1) ≡ v
unfolding get_u16
get_u16-some buf off v e = ground (arith, e)

deal_unsolicited-ctl :
    (ptr : Buf) (cmd rlen short_addr end_point ret : ℕ) (b b' : CzBox)
    → deal_unsolicited ptr cmd rlen short_addr end_point b ≡ some (ret, b')
    → b'.ctl ≡ b.ctl
deal_unsolicited-ctl ptr cmd rlen short_addr end_point ret b b' =
    deal_unsolicited_cases (λ c. c.ctl ≡ b.ctl) b b' ret ptr cmd rlen short_addr end_point refl
      (λ pdev id param param2. refl) (λ pdev id val. refl)
      (λ info r c.
        cz_register_device_cases (λ d. d.ctl ≡ b.ctl) short_addr end_point info b c r refl
          (λ r' devid w e q. refl))

deal_answer-ctl :
    (buf : Buf) (len t ret : ℕ) (b b' : CzBox)
    → deal_answer buf len t b ≡ some (ret, b')
    → b'.ctl ≡ (if (t == b.ctl.trans_id) && b.ctl.is_waiting then overlay b.ctl buf len else b.ctl)
unfolding deal_answer memcpy
deal_answer-ctl buf len t ret b b' e = ground (arith, e)

-- A frame changes what the request sees exactly if it answers the request that waits.
deal_recv_buf-ctl :
    (buf : Buf) (len ret : ℕ) (b b' : CzBox)
    → deal_recv_buf buf len b ≡ some (ret, b')
    → b'.ctl ≡ (if is_mine b.ctl buf then overlay b.ctl buf len else b.ctl)
unfolding deal_recv_buf
deal_recv_buf-ctl buf len ret b b' e =
    let (short_addr, e1, e) = >>=-some (get_u16 buf 6) _ _ e in
    let (end_point, e2, e) = >>=-some (get_u16 buf 8) _ _ e in
    let (t, e3, e) = >>=-some (get_u16 buf 10) _ _ e in
    let (cmd, e4, e) = >>=-some (get_u16 (advance 12 buf) 0) _ _ e in
    let (rlen, e5, e) = >>=-some (get_u16 (advance 12 buf) 2) _ _ e in
    elim (Bool-cases (0 == t)) [
      | inl z ↦ ground (
        arith,
        get_u16-some buf 10 t e3,
        z,
        deal_unsolicited-ctl (advance 12 buf) cmd rlen short_addr end_point ret b b'
            (ground (arith, z, e)),
      )
      | inr z ↦ ground (
        arith,
        get_u16-some buf 10 t e3,
        z,
        deal_answer-ctl buf len t ret b b' (ground (arith, z, e)),
      )
    ]

-- The monitor thread deals with frames, each with its length, one after another.
abbrev pub receive_all : List (Buf × ℕ) → CzBox → Option CzBox
receive_all [] b = some b
receive_all ((buf, len) ∷ fs) b = deal_recv_buf buf len b >>= (λ r. receive_all fs r.1)

-- The last frame that answers the request with the transaction id `t`.
abbrev pub latest : ℕ → List (Buf × ℕ) → Option (Buf × ℕ)
latest t [] = none
latest t ((buf, len) ∷ fs) = elim (latest t fs) [
  | some a ↦ some a
  | none ↦ if frame_id buf == t then some (buf, len) else none
]

-- The answer that the request finds: its bytes.
abbrev pub received : CzCtl → List ℕ
received c = first_bytes c.recv_len c.recv_buf.byte

received-overlay :
    (c : CzCtl) (buf : Buf) (len : ℕ) → received (overlay c buf len) ≡ first_bytes len buf.byte
received-overlay c buf len = first_bytes-cong len _ buf.byte (λ i h. ground (arith, h))

-- What no frame changes.
abbrev pub kept : CzCtl → Bool × ℕ × ℕ
kept c = (c.is_waiting, c.trans_id, c.recv_buf.size)

kept-overlay :
    (m : Bool) (c : CzCtl) (buf : Buf) (len : ℕ)
    → kept (if m then overlay c buf len else c) ≡ kept c
kept-overlay true c buf len = refl
kept-overlay false c buf len = refl

deal_recv_buf-kept :
    (buf : Buf) (len ret : ℕ) (b b' : CzBox)
    → deal_recv_buf buf len b ≡ some (ret, b')
    → kept b'.ctl ≡ kept b.ctl
deal_recv_buf-kept buf len ret b b' e =
    ap kept (deal_recv_buf-ctl buf len ret b b' e) ∙ kept-overlay (is_mine b.ctl buf) b.ctl buf len

pub receive_all-kept :
    (fs : List (Buf × ℕ)) (b b' : CzBox) → receive_all fs b ≡ some b' → kept b'.ctl ≡ kept b.ctl
receive_all-kept [] b b' e = ap (λ (c : CzBox). kept c.ctl) (sym (some-injective b b' e))
receive_all-kept ((buf, len) ∷ fs) b b' e =
    let ((ret, c), d, e) = >>=-some (deal_recv_buf buf len b) _ _ e in
    receive_all-kept fs c b' e ∙ deal_recv_buf-kept buf len ret b c d

-- The bytes of the last frame with the request's id, or of the answer before.
abbrev pub chosen : List ℕ → Option (Buf × ℕ) → List ℕ
chosen before none = before
chosen before (some (buf, len)) = first_bytes len buf.byte

received-either :
    (m : Bool) (c : CzCtl) (buf : Buf) (len : ℕ)
    → received (if m then overlay c buf len else c)
      ≡ (if m then first_bytes len buf.byte else received c)
received-either true c buf len = received-overlay c buf len
received-either false c buf len = refl

chosen-latest :
    (before : List ℕ) (buf : Buf) (len t : ℕ) (fs : List (Buf × ℕ))
    → chosen before (latest t ((buf, len) ∷ fs))
      ≡ chosen (if frame_id buf == t then first_bytes len buf.byte else before) (latest t fs)
chosen-latest before buf len t fs = elim (Option-cases (latest t fs)) [
  | inl n ↦ elim (Bool-cases (frame_id buf == t)) [
    | inl m ↦ rw (n, m) refl
    | inr m ↦ rw (n, m) refl
  ]
  | inr (a, n) ↦ rw n refl
]

is_mine_iff :
    (c : CzCtl) (buf : Buf)
    → c.is_waiting ≡ true
    → 0 < c.trans_id
    → is_mine c buf ≡ (frame_id buf == c.trans_id)
is_mine_iff c buf w t = ground (arith, w, t)

received_next :
    (buf : Buf) (len ret : ℕ) (b c : CzBox)
    → b.ctl.is_waiting ≡ true
    → 0 < b.ctl.trans_id
    → deal_recv_buf buf len b ≡ some (ret, c)
    → received c.ctl
      ≡ (if frame_id buf == b.ctl.trans_id then first_bytes len buf.byte else received b.ctl)
received_next buf len ret b c w t d =
    ap received (deal_recv_buf-ctl buf len ret b c d)
    ∙ received-either (is_mine b.ctl buf) b.ctl buf len
    ∙ ap (λ (m : Bool). if m then first_bytes len buf.byte else received b.ctl)
        (is_mine_iff b.ctl buf w t)

-- While a request waits with a transaction id other than 0, and whatever frames come in, it finds the
-- last one with its id, byte for byte, and without one the answer to an earlier request.
pub receive_all-latest :
    (fs : List (Buf × ℕ)) (b b' : CzBox)
    → b.ctl.is_waiting ≡ true
    → 0 < b.ctl.trans_id
    → receive_all fs b ≡ some b'
    → received b'.ctl ≡ chosen (received b.ctl) (latest b.ctl.trans_id fs)
receive_all-latest [] b b' w t e = ap (λ (c : CzBox). received c.ctl) (sym (some-injective b b' e))
receive_all-latest ((buf, len) ∷ fs) b b' w t e =
    let ((ret, c), d, e) = >>=-some (deal_recv_buf buf len b) _ _ e in
    let k = deal_recv_buf-kept buf len ret b c d in
    let ih =
      receive_all-latest fs c b' (ap (λ x. x.0) k ∙ w) (ground (arith, t, ap (λ x. x.1) k)) e in
    let mine = received_next buf len ret b c w t d in
    ih
    ∙ ap (λ i. chosen (received c.ctl) (latest i fs)) (ap (λ x. x.1) k)
    ∙ ap (λ bytes. chosen bytes (latest b.ctl.trans_id fs)) mine
    ∙ sym (chosen-latest (received b.ctl) buf len b.ctl.trans_id fs)

-- With the transaction id 0, no frames whatever that are dealt with change what the request has
-- received, or anything else of the driver's control block.
pub receive_all-zero :
    (fs : List (Buf × ℕ)) (b b' : CzBox)
    → b.ctl.trans_id ≡ 0
    → receive_all fs b ≡ some b'
    → b'.ctl ≡ b.ctl
receive_all-zero [] b b' z e = ap (λ (c : CzBox). c.ctl) (sym (some-injective b b' e))
receive_all-zero ((buf, len) ∷ fs) b b' z e =
    let ((ret, c), d, e) = >>=-some (deal_recv_buf buf len b) _ _ e in
    let same = deal_recv_buf-ctl buf len ret b c d ∙ not_mine b.ctl buf len z in
    receive_all-zero fs c b' (ap (λ (x : CzCtl). x.trans_id) same ∙ z) e ∙ same
  where
    not_mine :
        (x : CzCtl) (buf : Buf) (len : ℕ)
        → x.trans_id ≡ 0
        → (if is_mine x buf then overlay x buf len else x) ≡ x
    not_mine x buf len z = ground (arith, z)
