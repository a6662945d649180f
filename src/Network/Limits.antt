-- ===== src/Network/Limits.antt =====
-- The limits of the buffers of core_daemon/network.c: which answers fit, and what a short SET_STATUS
-- packet queues.
use hsbsw.Prelude.{
  ℕ, zero, suc, ◌+◌, ◌-◌, ◌*◌, ◌/◌, ◌%◌, ◌^◌, ◌≤◌, ◌<◌, ◌≡◌, ◌≢◌, refl, List, [], ◌∷◌, ◌++◌, Option,
  none, some, true, arith, length, replicate, ap, ◌↔◌,
}
use hsbsw.Codes.Cmd
use hsbsw.Device.Types.{Status, set_status, RespBody, result, event, status, Dev, World}
use hsbsw.Device.Async.{set_dev_status_async, push_act, thread_control_push_data}
use hsbsw.Device.Find.{get_dev_id_list}
use hsbsw.Network.Field.{Buf, poke, get_u32, set_u16, set_u32, make_cmd_hdr, zero_buf}
use hsbsw.Network.Reply.{put_ids, reply_dev_id_list, put_status, make_notify_resp}
use hsbsw.Network.Request.{
  Answer, reply_buf, deal_get_devs, status_num, status_total, read_status, get_dev_status,
  deal_set_status,
}

set_u32-total :
    (buf : Buf) (off v : ℕ)
    → off + 4 ≤ buf.size
    → (b : Buf) × (set_u32 buf off v ≡ some b) × (b.size ≡ buf.size)
unfolding set_u32
set_u32-total buf off v h = (
  poke (poke (poke (poke buf off v) (off + 1) (v / 256)) (off + 2) (v / 65536)) (off + 3)
      (v / 16777216),
  ground arith,
  refl,
)

set_u16-total :
    (buf : Buf) (off v : ℕ)
    → off + 2 ≤ buf.size
    → (b : Buf) × (set_u16 buf off v ≡ some b) × (b.size ≡ buf.size)
unfolding set_u16
set_u16-total buf off v h = (poke (poke buf off v) (off + 1) (v / 256), ground arith, refl)

make_cmd_hdr-total :
    (cmd len : ℕ) (buf : Buf)
    → 4 ≤ buf.size
    → (b : Buf) × (make_cmd_hdr cmd len buf ≡ some b) × (b.size ≡ buf.size)
unfolding make_cmd_hdr
make_cmd_hdr-total cmd len buf h =
    let (b, e, s) = set_u16-total buf 0 cmd (omega arith) in
    let (b', e', s') = set_u16-total b 2 len (omega arith) in (b', rw e e', omega arith)

put_ids_total :
    (id : ℕ) (ds : List ℕ) (buf : Buf)
    → 4 + (id + length ds) * 4 ≤ buf.size
    → put_ids id ds buf ≢ none
unfolding put_ids
put_ids_total id [] buf h = ground arith
put_ids_total id (d ∷ ds) buf h =
    let (b, e, s) = set_u32-total buf (4 + id * 4) d (omega arith) in
    rw e (put_ids_total (suc id) ds b (omega arith))

length-ids : (q : List Dev) → length (get_dev_id_list q) ≡ length q
unfolding get_dev_id_list
length-ids [] = refl
length-ids (d ∷ q) = ap suc (length-ids q)

reply_ids_total : (ds : List ℕ) → length ds ≤ 255 → reply_dev_id_list ds reply_buf ≢ none
unfolding reply_dev_id_list
reply_ids_total ds h =
    let (b, e, s) =
      make_cmd_hdr-total Cmd.get_devs_resp (length ds * 4 + 4) reply_buf (omega arith) in
    let fits = put_ids_total 0 ds b (omega arith) in rw e (ground arith)

deal_get_devs-some : (w : World) → length w.cb.queue ≤ 128 → deal_get_devs w ≢ none
unfolding deal_get_devs
deal_get_devs-some w h =
    let few =
      reply_ids_total (get_dev_id_list w.cb.queue) (ground (arith, length-ids w.cb.queue)) in
    ground (arith, length-ids w.cb.queue, few)

-- The list of the devices is answered without an access out of an array exactly while at most 128
-- devices are online.
pub deal_get_devs-none_iff : (w : World) → (deal_get_devs w ≡ none) ↔ (128 < length w.cb.queue)
unfolding deal_get_devs
deal_get_devs-none_iff w = (
  (λ e. ground (arith, length-ids w.cb.queue, deal_get_devs-some w, e)),
  λ many. ground (arith, length-ids w.cb.queue),
)

put_status_total :
    (num id : ℕ) (ids vals : List ℕ) (buf : Buf)
    → num ≤ length ids
    → num ≤ length vals
    → 8 + 4 * (id + num) ≤ buf.size
    → put_status num id ids vals buf ≢ none
unfolding put_status
put_status_total zero id ids vals buf h k s = ground arith
put_status_total (suc num) id [] vals buf h k s = absurd (omega arith)
put_status_total (suc num) id (i ∷ ids) [] buf h k s = absurd (omega arith)
put_status_total (suc num) id (i ∷ ids) (v ∷ vals) buf h k s =
    let (b, e, t) = set_u16-total buf (8 + 4 * id) i (omega arith) in
    let (b', e', t') = set_u16-total b (10 + 4 * id) v (omega arith) in
    rw (e, e') (put_status_total num (suc id) ids vals b' (omega arith) (omega arith) (omega arith))

-- A response whose status, if it is one, has no more entries than its arrays, and at most eight.
abbrev pub FitsStatus : RespBody → Type 0
FitsStatus (result ret) = Unit
FitsStatus (event evt) = Unit
FitsStatus (status st) = (st.num ≤ 8) × (st.num ≤ length st.id) × (st.num ≤ length st.val)

-- Every response with at most eight statuses fits into the 64 bytes of the buffer in which
-- `_process_notify` makes it up.
pub make_notify_resp_fits : (r : RespBody) → FitsStatus r → make_notify_resp r (zero_buf 64) ≢ none
unfolding make_notify_resp
make_notify_resp_fits (result ret) h =
    let (b, e, s) = make_cmd_hdr-total Cmd.result 8 (zero_buf 64) (omega arith) in
    let (b', e', s') = set_u16-total b 4 ret (omega arith) in rw (e, e') (ground arith)
make_notify_resp_fits (event evt) h =
    let (b, e, s) = make_cmd_hdr-total Cmd.event 16 (zero_buf 64) (omega arith) in
    let (b₁, e₁, s₁) = set_u32-total b 4 evt.devid (omega arith) in
    let (b₂, e₂, s₂) = set_u16-total b₁ 8 evt.id (omega arith) in
    let (b₃, e₃, s₃) = set_u16-total b₂ 10 evt.param1 (omega arith) in
    let (b₄, e₄, s₄) = set_u32-total b₃ 12 evt.param2 (omega arith) in
    rw (e, e₁, e₂, e₃, e₄) (ground arith)
make_notify_resp_fits (status st) h =
    let len = (8 + st.num * 4) % 2 ^ 32 in
    let (b, e, s) = make_cmd_hdr-total Cmd.get_status_resp len (zero_buf 64) (omega arith) in
    let (b', e', s') = set_u32-total b 4 st.devid (omega arith) in
    let fits = put_status_total st.num 0 st.id st.val b' h.1 h.2 (omega arith) in
    rw (e, e') (ground arith)

short_total : (len : ℕ) → len < 5 → status_total len ≡ 0
unfolding status_total
short_total len h = ground arith

short_num : (len : ℕ) → 0 < len → len < 5 → status_num len ≡ 2 ^ 32 - 1
unfolding status_num status_total
short_num len h k = ground arith

-- A SET_STATUS packet of fewer than five bytes that has a device's id where the buffer goes on is
-- queued as a request with 2^32 - 1 statuses, though the arrays hold eight.
pub deal_set_status_short :
    (buf : Buf) (len : ℕ) (reply : Option ℕ) (w : World)
    → 8 ≤ buf.size
    → 0 < len
    → len < 5
    → w.cb.async.mem ≡ true
    → (a : Answer) × (st : Status) × (deal_set_status buf len reply w ≡ some a)
      × (st.num ≡ 2 ^ 32 - 1)
      × (length st.id ≡ 8)
      × (a.world.cb.async.data_queue
          ≡ w.cb.async.data_queue ++ (record { body = set_status st; reply = reply } ∷ []))
unfolding deal_set_status get_u32 get_dev_status read_status set_dev_status_async push_act
    thread_control_push_data
deal_set_status_short buf len reply w room some_len short mem =
    let d = buf.byte 4 + 256 * buf.byte 5 + 65536 * buf.byte 6 + 16777216 * buf.byte 7 in
    let st : Status = record {
      devid = d;
      num = 2 ^ 32 - 1;
      id = replicate 8 0;
      val = replicate 8 0;
    } in
    (
      record {
        reply = reply_buf;
        rlen = 0;
        world = record w {
          cb = record (w.cb) { async = (set_dev_status_async st reply w.cb.async).1 };
        };
      },
      st,
      rw (short_total len short, short_num len some_len short) (ground arith),
      refl,
      refl,
      rw mem refl,
    )
