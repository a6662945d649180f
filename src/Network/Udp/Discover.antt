-- ===== src/Network/Udp/Discover.antt =====
-- Which packets `deal_udp_packet` of core_daemon/network.c answers, and with what.
use hsbsw.Prelude.{ℕ, ◌≡◌, ◌≤◌, refl, arith, some, ◌==◌, ◌&&◌, not, if◌then◌else◌}
use hsbsw.Codes.Cmd
use hsbsw.Codes.{minus_one}
use hsbsw.Network.Field.{Buf, get_u8, get_u16, zero_buf}
use hsbsw.Network.Udp.{check_udp_pkt_valid, reply_box_discover, deal_udp_packet}

reply_box_discover_lem :
    (b : Buf) × (reply_box_discover (zero_buf 32) 1 ≡ some (b, 8))
    × (get_u16 b 0 ≡ some Cmd.box_discover_resp)
    × (get_u16 b 2 ≡ some 8)
    × (get_u8 b 4 ≡ some 0)
    × (get_u8 b 5 ≡ some 1)
    × (get_u16 b 6 ≡ some 1)
unfolding reply_box_discover get_u8 get_u16
reply_box_discover_lem = (_, refl, refl, refl, refl, refl, refl)

-- A datagram is answered exactly if it is as long as its length field says, is not empty and is
-- BOX_DISCOVER, and then with 8 bytes: BOX_DISCOVER_RESP, the length, the version 1.0 with the minor
-- number first, and the box's id 1. No access is out of a buffer
-- of 8 bytes or more.
pub deal_udp_packet-answers :
    (buf : Buf) (len cmd size : ℕ)
    → 8 ≤ buf.size
    → get_u16 buf 0 ≡ some cmd
    → get_u16 buf 2 ≡ some size
    → let valid = (len == size) && not (len == 0) in
      let discover = valid && (cmd == Cmd.box_discover) in
      let resp = valid && (cmd == Cmd.box_discover_resp) in
      (b : Buf) × (deal_udp_packet buf len
        ≡ some (
            if discover
            then (0, b, 8)
            else if resp
            then (0, zero_buf 32, 0)
            else (minus_one, zero_buf 32, 0)))
      × (get_u16 b 0 ≡ some Cmd.box_discover_resp)
      × (get_u16 b 2 ≡ some 8)
      × (get_u8 b 4 ≡ some 0)
      × (get_u8 b 5 ≡ some 1)
      × (get_u16 b 6 ≡ some 1)
unfolding deal_udp_packet check_udp_pkt_valid get_u16
deal_udp_packet-answers buf len cmd size room c l =
    let (b, e, p, q, minor, major, r) = reply_box_discover_lem in
    (b, ground (arith, e, c, l), p, q, minor, major, r)
