-- ===== src/Zigbee/Bounds.antt =====
-- Where the reading of a frame in core_daemon/driver_cg_zigbee.c stays within its arrays.
use hsbsw.Prelude.{
  ℕ, ◌+◌, ◌-◌, ◌*◌, ◌≤◌, ◌<◌, ◌≡◌, ◌≢◌, ◌↔◌, arith, true, none, some, leb, Option-cases, inl, inr,
}
use hsbsw.Device.Types.{sample_op}
use hsbsw.Device.Registry.{dev_online}
use hsbsw.Device.System.{Reach}
use hsbsw.Device.System.Invariant.{IsValid}
use hsbsw.Device.System.Reached.{dev_online_total}
use hsbsw.Network.Field.{get_bytes, Buf, get_u8, get_u16, get_u32, advance}
use hsbsw.Zigbee.{
  CzInfo, CzBox, cz_drv, cz_dev_info, cz_find_by_mac, cz_register_device, cz_header_magic,
}
use hsbsw.Zigbee.Frame.{
  get_cz_info, deal_discovered, deal_event, deal_status_changed, deal_unsolicited, deal_answer,
  deal_recv_buf, read_into, monitor_frame,
}
use hsbsw.Zigbee.Ops.{memcpy}

get_cz_info-ne-none : (ptr : Buf) → 24 ≤ ptr.size → get_cz_info ptr ≢ none
unfolding get_cz_info get_bytes get_u8 get_u16 get_u32
get_cz_info-ne-none ptr h = ground (arith, h)

-- There is memory, and the box is well formed.
module _ (b : CzBox) (v : IsValid b.world.cb) (mem : b.world.cb.async.mem ≡ true) where
  cz_register_device-ne-none :
      (short_addr end_point : ℕ) (info : CzInfo)
      → cz_register_device short_addr end_point info b ≢ none
  unfolding cz_register_device
  cz_register_device-ne-none short_addr end_point info =
      elim (Option-cases (cz_find_by_mac b.queue info.mac)) [
        | inr (d, there) ↦ ground (arith, there)
        | inl n ↦ elim (Option-cases (dev_online cz_drv.id (cz_dev_info info) sample_op b.world)) [
          | inl f ↦
              absurd (dev_online_total cz_drv.id (cz_dev_info info) sample_op v Reach.here mem f)
          | inr (o, f) ↦ ground (arith, n, f)
        ]
      ]

  deal_discovered-ne-none :
      (ptr : Buf) (rlen short_addr end_point : ℕ)
      → 32 ≤ ptr.size
      → deal_discovered ptr rlen short_addr end_point b ≢ none
  unfolding deal_discovered
  deal_discovered-ne-none ptr rlen short_addr end_point h =
      elim (Option-cases (get_cz_info (advance 8 ptr))) [
        | inl n ↦ absurd (get_cz_info-ne-none (advance 8 ptr) (omega arith) n)
        | inr (info, i) ↦ ground (arith, i, cz_register_device-ne-none short_addr end_point info)
      ]

  deal_unsolicited-ne-none :
      (ptr : Buf) (cmd rlen short_addr end_point : ℕ)
      → 32 ≤ ptr.size
      → deal_unsolicited ptr cmd rlen short_addr end_point b ≢ none
  unfolding deal_unsolicited deal_event deal_status_changed get_u16 get_u32
  deal_unsolicited-ne-none ptr cmd rlen short_addr end_point h =
      ground (arith, h, deal_discovered-ne-none ptr rlen short_addr end_point h)

  deal_recv_buf-ne-none :
      (buf : Buf) (len : ℕ)
      → 44 ≤ buf.size
      → len ≤ buf.size
      → len ≤ b.ctl.recv_buf.size
      → deal_recv_buf buf len b ≢ none
  unfolding deal_recv_buf deal_answer memcpy get_u16
  deal_recv_buf-ne-none buf len h room room' =
      let field : ℕ → ℕ = λ off. buf.byte off + 256 * buf.byte (off + 1) in
      ground (
        arith,
        h,
        room,
        room',
        deal_unsolicited-ne-none (advance 12 buf) (field 12) (field 14) (field 6) (field 8)
            (omega arith),
      )

  -- A frame whose header says that it has `cmd_len` bytes, more than its header, and whose second read
  -- gives `ret` bytes, not more than asked for: reading it goes out of `rbuf`, which has 256 bytes,
  -- exactly if it gives more bytes than fit behind the header; else dealing with it makes no access
  -- out of an array, on a well-formed box while there is memory.
  pub monitor_frame-none_iff :
      (rbuf : Buf) (cmd_len : ℕ) (body : ℕ → ℕ) (ret : ℕ)
      → b.ctl.recv_buf.size ≡ 256
      → rbuf.size ≡ 256
      → get_u16 rbuf 0 ≡ some cz_header_magic
      → get_u16 rbuf 2 ≡ some cmd_len
      → 12 < cmd_len
      → ret ≤ cmd_len - 12
      → (monitor_frame rbuf 12 body ret b ≡ none) ↔ (256 < 12 + ret)
  unfolding monitor_frame read_into
  monitor_frame-none_iff rbuf cmd_len body ret room size m l long most =
      elim (Option-cases (read_into rbuf 12 body ret)) [
        | inl n ↦
            (λ e. ground (arith, n, size), λ h. rw (monitor_frame, m, l) (ground (arith, n, long)))
        | inr (r, i) ↦ (
          λ e. absurd (ground (arith, m, l, long, i, e, deals r i)),
          λ h. ground (arith, i, size, h),
        )
      ]
    where
      read_size : (r : Buf) → read_into rbuf 12 body ret ≡ some r → r.size ≡ 256
      read_size r i = ground (arith, i, size)

      deals :
          (r : Buf)
          → read_into rbuf 12 body ret ≡ some r
          → leb cmd_len (12 + ret) ≡ true
          → deal_recv_buf r cmd_len b ≢ none
      deals r i whole =
          deal_recv_buf-ne-none r cmd_len (omega (arith, read_size r i))
            (ground (arith, i, size, whole, read_size r i)) (ground (arith, i, size, whole, room))
