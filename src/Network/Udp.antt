-- ===== src/Network/Udp.antt =====
-- The discovery of the box over UDP: `check_udp_pkt_valid`, `_reply_box_discover` and
-- `deal_udp_packet` of core_daemon/network.c.
pub mod Discover
use hsbsw.Prelude.{ℕ, Bool, Option, some, ◌||◌, ◌-◌, ◌==◌, not, if◌then◌else◌}
use hsbsw.Codes.Cmd
use hsbsw.Codes.{minus_one}
use hsbsw.Network.Field.{Buf, ◌>>=◌, get_u16, set_u8, set_u16, make_cmd_hdr, zero_buf}

-- UDP_CMD_VALID
abbrev pub udp_cmd_valid : ℕ → Bool
udp_cmd_valid x = (x == Cmd.box_discover) || (x == Cmd.box_discover_resp)

-- For a buffer that is not NULL and a length that is no error: 0, or the pattern of -1, -2 or -3.
unfoldable pub check_udp_pkt_valid : Buf → ℕ → Option ℕ
unfolding get_u16
check_udp_pkt_valid buf len =
    let checked : Option ℕ = do
      command ← get_u16 buf 0
      size ← get_u16 buf 2
      some (
          if not (udp_cmd_valid command)
          then minus_one - 1
          else if len == size
          then 0
          else minus_one - 2)
    in if len == 0 then some minus_one else checked

unfoldable pub reply_box_discover : Buf → ℕ → Option (Buf × ℕ)
unfolding make_cmd_hdr set_u8 set_u16
reply_box_discover buf bid = do
  b ← make_cmd_hdr Cmd.box_discover_resp 8 buf
  b ← set_u8 b 4 0
  b ← set_u8 b 5 1
  b ← set_u16 b 6 bid
  some (b, 8)

-- The result, and the bytes that are sent back with their number.
unfoldable pub deal_udp_packet : Buf → ℕ → Option (ℕ × Buf × ℕ)
unfolding check_udp_pkt_valid get_u16 reply_box_discover
deal_udp_packet buf len = do
  invalid ← check_udp_pkt_valid buf len
  let valid : Option (ℕ × Buf × ℕ) = do
    cmd ← get_u16 buf 0
    let discover : Option (ℕ × Buf × ℕ) = do
      uid ← get_u16 buf 6
      (b, rlen) ← reply_box_discover (zero_buf 32) 1
      some (0, b, rlen)
    if cmd == Cmd.box_discover then discover else some (0, zero_buf 32, 0)
  if invalid == 0 then valid else some (minus_one, zero_buf 32, 0)
