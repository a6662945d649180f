-- ===== src/Sim/Pad/Shown/Replies.antt =====
-- Every reply and notification of core_daemon/network.c as misc/pad_sim.c shows it.
use hsbsw.Prelude.{
  ℕ, ◌+◌, ◌*◌, ◌/◌, ◌%◌, ◌^◌, ◌≤◌, ◌<◌, ◌≡◌, refl, sym, ap, List, [], ◌∷◌, Option, some, arith,
  length, All,
}
use mathlib.Core.Path.{subst}
use hsbsw.Codes.Cmd
use hsbsw.Device.Types.{Evt, Status, Dev, Drv, result, event, status}
use hsbsw.Network.Field.{Buf, make_cmd_hdr, zero_buf}
use hsbsw.Network.Reply.{reply_result, reply_dev_id_list, reply_get_device_info, make_notify_resp}
use hsbsw.Network.RoundTrip.{word8, word16, word32}
use hsbsw.Network.Udp.{deal_udp_packet}
use hsbsw.Sim.{Datagram}
use hsbsw.Sim.Laws.{arrived}
use hsbsw.Sim.Pad.Shown.{
  Shown, ids, dev_identity, dev_status, dev_evt, call_result, deal_tcp_pkt, discover_request,
  discover_answer,
}
use hsbsw.Sim.Pad.Shown.Written.{
  Reply, dev_ids, device_info, timer, delay, linkage, outcome, notification, sent, about, FitsReply,
}
use hsbsw.Sim.Pad.Shown.Tables.{timer-shown, delay-shown, linkage-shown}
use hsbsw.Sim.Pad.Shown.Lists.{
  Begins-le, Begins-trans, get_u32-set_u32, show_ids-put_ids, entries, show_entries-put_status,
}
use hsbsw.Sim.Pad.Shown.Headers.{
  arrived-Begins, make_cmd_hdr-read, deal_tcp_pkt-ids, deal_tcp_pkt-status, six_bytes, about-info,
}

module _ (stack : ℕ → ℕ) where
  -- The packet is written, and shown as `r` at the start of a buffer that goes on as it was.
  abbrev pub ShownAs : Option (Buf × ℕ) → Shown → Type 0
  ShownAs o r =
      (b : Buf) × (n : ℕ) × (o ≡ some (b, n)) × (deal_tcp_pkt (arrived stack 1024 b n) ≡ some r)

  ids-shown :
      (ds : List ℕ)
      → length ds ≤ 255
      → All (λ d. d < 2 ^ 32) ds
      → ShownAs (reply_dev_id_list ds (zero_buf 1024)) (ids ds)
  unfolding reply_dev_id_list
  ids-shown ds few small =
      let n = length ds * 4 + 4 in
      let (a, d, r, head) =
        make_cmd_hdr-read Cmd.get_devs_resp n (zero_buf 1024) (omega arith) (omega arith)
          (omega arith) in
      let (b, e, s, keeps, read) = show_ids-put_ids ds 0 a (omega (arith, r)) small in
      let g = arrived-Begins stack b n (omega arith) in
      let h = head _ (Begins-trans (Begins-le 4 (omega arith) g) keeps) in
      (
        b,
        n,
        rw (d, e) refl,
        deal_tcp_pkt-ids _ n (length ds) ds h.0 h.1 (omega arith)
            (read _ (Begins-le (4 + (0 + length ds) * 4) (omega arith) g)),
      )

  status-shown :
      (st : Status)
      → FitsReply (notification (status st))
      → ShownAs
          (make_notify_resp (status st) (zero_buf 64))
          (dev_status st.devid (entries st.num st.id st.val))
  unfolding make_notify_resp
  status-shown st (small, few, h, k, p, q) =
      let n = (8 + st.num * 4) % 2 ^ 32 in
      let (a, d, r, head) =
        make_cmd_hdr-read Cmd.get_status_resp n (zero_buf 64) (omega arith) (omega arith)
          (omega arith) in
      let (a', d', r', holds, id) = get_u32-set_u32 a 4 st.devid (omega (arith, r)) small in
      let (b, e, s, keeps, read) =
        show_entries-put_status st.num 0 st.id st.val a' h k (omega (arith, r, r')) p q in
      let g = arrived-Begins stack b n (omega arith) in
      let g' = Begins-trans (Begins-le 8 (omega arith) g) keeps in
      let t = head _ (Begins-trans (Begins-le 4 (omega arith) g') holds) in
      (
        b,
        n,
        rw (d, d', e) refl,
        deal_tcp_pkt-status _ n st.num st.devid _ t.0 t.1 (id _ g') (omega arith)
            (read _ (Begins-le (8 + 4 * (0 + st.num)) (omega arith) g)),
      )

  info-shown :
      (dev : Dev) (d : Drv) (m₀ m₁ m₂ m₃ m₄ m₅ : ℕ) (rest : List ℕ)
      → dev.driver ≡ some d
      → dev.info.mac ≡ m₀ ∷ m₁ ∷ m₂ ∷ m₃ ∷ m₄ ∷ m₅ ∷ rest
      → FitsReply (device_info dev)
      → d.id < 2 ^ 32
      → All (λ b. b < 2 ^ 8) (m₀ ∷ m₁ ∷ m₂ ∷ m₃ ∷ m₄ ∷ m₅ ∷ rest)
      → ShownAs (reply_get_device_info dev (zero_buf 1024)) (
          dev_identity dev.id d.id dev.info.cls dev.info.interface
            (m₀ ∷ m₁ ∷ m₂ ∷ m₃ ∷ m₄ ∷ m₅ ∷ []))
  unfolding reply_get_device_info deal_tcp_pkt
  info-shown dev d m₀ m₁ m₂ m₃ m₄ m₅ rest e m f k (p₀, (p₁, (p₂, (p₃, (p₄, (p₅, p)))))) =
      rw (e, m)
        (
          _,
          24,
          refl,
          λ i. some (
              dev_identity (word32 dev.id f.0 i) (word32 d.id k i) (word16 dev.info.cls f.2 i)
                (word16 dev.info.interface f.3 i)
                (word8 m₀ p₀ i
                  ∷ word8 m₁ p₁ i
                  ∷ word8 m₂ p₂ i
                  ∷ word8 m₃ p₃ i
                  ∷ word8 m₄ p₄ i
                  ∷ word8 m₅ p₅ i
                  ∷ [])),
        )

  event-shown :
      (evt : Evt)
      → FitsReply (notification (event evt))
      → ShownAs (make_notify_resp (event evt) (zero_buf 64)) (dev_evt evt)
  unfolding make_notify_resp deal_tcp_pkt make_cmd_hdr
  event-shown evt f = (
    _,
    16,
    refl,
    λ i. some (
        dev_evt (record {
          devid = word32 evt.devid f.0 i;
          id = word16 evt.id f.1 i;
          param1 = word16 evt.param1 f.2 i;
          param2 = word32 evt.param2 f.3 i;
        })),
  )

  result-shown :
      (ret : ℕ)
      → ret < 2 ^ 16
      → ShownAs (make_notify_resp (result ret) (zero_buf 64)) (call_result ret)
  unfolding make_notify_resp deal_tcp_pkt make_cmd_hdr
  result-shown ret h = (_, 8, refl, ap (λ r. some (call_result r)) (word16 ret h))

  outcome-shown :
      (ret : ℕ) → ShownAs (reply_result ret (zero_buf 1024)) (call_result (ret % 2 ^ 16))
  unfolding reply_result deal_tcp_pkt make_cmd_hdr
  outcome-shown ret =
      let low : ret % 256 + 256 * (ret / 256 % 256) ≡ ret % 2 ^ 16 = omega arith in
      (_, 8, refl, ap (λ r. some (call_result r)) low)

  -- Every reply and every notification whose numbers fit their fields, with at most 128 ids, at most
  -- eight statuses and a driver for a device's information, is written without an access out of its
  -- buffer, and the client shows the same numbers of it, but of the result of a request the lower 16
  -- bits, whatever stands behind it in the client's buffer.
  pub deal_tcp_pkt-sent : (r : Reply) → FitsReply r → ShownAs (sent r) (about r)
  deal_tcp_pkt-sent (dev_ids ds) f = ids-shown ds (omega arith) f.1
  deal_tcp_pkt-sent (device_info dev) f =
      let (d, e, small) = f.1 in
      let (m₀, m₁, m₂, m₃, m₄, m₅, rest, m) = six_bytes dev.info.mac f.4 in
      let bytes = subst (All (λ b. b < 2 ^ 8)) m f.5 in
      subst (ShownAs (sent (device_info dev))) (sym (about-info dev d m₀ m₁ m₂ m₃ m₄ m₅ rest e m))
        (info-shown dev d m₀ m₁ m₂ m₃ m₄ m₅ rest e m f small bytes)
  deal_tcp_pkt-sent (timer dev_id tm) f =
      let (b, e, s) = timer-shown stack dev_id tm f.0 f.1 in (b, 24, e, s)
  deal_tcp_pkt-sent (delay dev_id d) f =
      let (b, e, s) = delay-shown stack dev_id d f.0 f.1 in (b, 32, e, s)
  deal_tcp_pkt-sent (linkage dev_id link) f =
      let (b, e, s) = linkage-shown stack dev_id link f.0 f.1 in (b, 32, e, s)
  deal_tcp_pkt-sent (outcome ret) f = outcome-shown ret
  deal_tcp_pkt-sent (notification (result ret)) f = result-shown ret f
  deal_tcp_pkt-sent (notification (event evt)) f = event-shown evt f
  deal_tcp_pkt-sent (notification (status st)) f = status-shown st f

  -- The broadcast of the client is answered by the box, which the client takes for a
  -- BOX_DISCOVER_RESP of 8 bytes from box 1, whatever the two buffers held before.
  pub discover_round :
      (d : Datagram) × (b : Buf) × (discover_request ≡ some d)
      × (deal_udp_packet (arrived stack 1024 d.0 d.1) d.1 ≡ some (0, b, 8))
      × (discover_answer (arrived stack 16 b 8) ≡ some (Cmd.box_discover_resp, 8, 1))
  unfolding discover_request deal_udp_packet discover_answer
  discover_round = (_, _, refl, refl, refl)
