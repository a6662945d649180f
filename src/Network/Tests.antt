-- ===== src/Network/Tests.antt =====
-- Packets to core_daemon/network.c, and its pool of contexts.
use hsbsw.Prelude.{
  ℕ, ◌+◌, ◌-◌, ◌^◌, ◌<◌, ◌≡◌, ◌≢◌, ◌↔◌, refl, true, false, [], ◌∷◌, none, some, arith, replicate,
  length, ◌==◌, if◌then◌else◌,
}
use hsbsw.Codes.Cmd
use hsbsw.Device.Types.{Status, Resp, set_status, result, Client, World, zero_dev}
use hsbsw.Network.Field.{advance, Buf, get_u8, get_u16}
use hsbsw.Network.Request.{Answer, deal_get_devs, deal_set_status}
use hsbsw.Network.Limits.{deal_get_devs-none_iff, deal_set_status_short}
use hsbsw.Network.Pool.{take_context, get_client_context, put_client_context}
use hsbsw.Network.Pool.Laws.{get_client_context-put_client_context}
use hsbsw.Network.Udp.{deal_udp_packet}
use hsbsw.Network.Udp.Discover.{deal_udp_packet-answers}
use hsbsw.Network.Request.{check_tcp_pkt_valid, deal_probe_dev}
use hsbsw.Network.Tcp.{deal_tcp_packet, deal_cmd, Run, tcp_loop}
use hsbsw.Network.Tcp.Loop.{HasHeader, tcp_loop_stuck, tcp_loop_ends}

abbrev client : ℕ → Client
client n = record { tcp_sockfd = n; un_sockfd = n + 1; queue = []; using = true; notified = 0 }

abbrev stale : Resp
stale = record { body = result 0; reply = some 1 }

-- A context that a client has left.
abbrev left : Client
left = record (client 7) { queue = stale ∷ []; using = false }

abbrev box : World
box = record {
  cb = record {
    queue = replicate 129 zero_dev;
    offq = [];
    driverq = [];
    dev_id = 130;
    work_mode = 0;
    sec_today = 0;
    async = record { data_queue = []; active = true; mem = true };
  };
  pool = client 5 ∷ [];
}

deal_get_devs-none_iff_example : (deal_get_devs box ≡ none) ↔ (128 < 129)
deal_get_devs-none_iff_example = deal_get_devs-none_iff box

-- A PROBE packet whose length field is 0.
abbrev packet : Buf
packet = record { size = 1024; byte = λ i. if i == 0 then 0x61 else if i == 1 then 0x88 else 0 }

deal_set_status_short_example :
    (a : Answer) × (st : Status) × (deal_set_status packet 4 (some 0) box ≡ some a)
    × (st.num ≡ 2 ^ 32 - 1)
    × (length st.id ≡ 8)
    × (a.world.cb.async.data_queue ≡ record { body = set_status st; reply = some 0 } ∷ [])
deal_set_status_short_example =
    deal_set_status_short packet 4 (some 0) box (omega arith) (omega arith) (omega arith) refl

get_client_context-put_client_context_example :
    get_client_context 9 10
      (put_client_context 1 (client 5 ∷ record (client 7) { queue = stale ∷ [] } ∷ []))
    ≡ (
      some 1,
      client 5 ∷ record (client 7) { tcp_sockfd = 9; un_sockfd = 10; queue = stale ∷ [] } ∷ [],
    )
unfolding take_context
get_client_context-put_client_context_example =
    get_client_context-put_client_context 9 10 (client 5 ∷ [])
      (record (client 7) { queue = stale ∷ [] }) [] (refl, tt)

tcp_loop_stuck_example : tcp_loop 1000 packet 4 (some 0) box ≢ Run.done [] box
tcp_loop_stuck_example =
    tcp_loop_stuck 1000 packet Cmd.probe_dev 4 (some 0) box box []
      (record { room = omega arith; cmd_field = refl; len_field = refl }) refl (omega arith)

tcp_loop_ends_example :
    (i : ℕ) × (cmd : ℕ) × HasHeader (advance i packet) cmd 0 × (Cmd.valid cmd ≡ true) × (i < 4)
unfolding tcp_loop deal_tcp_packet deal_cmd deal_probe_dev check_tcp_pkt_valid
tcp_loop_ends_example = tcp_loop_ends 4 packet 4 (some 0) box (omega arith) refl

-- A discovery packet.
abbrev discover : Buf
discover = record {
  size = 1024;
  byte = λ i. if i == 0 then 0x01 else if i == 1 then 0x88 else if i == 2 then 8 else 0;
}

deal_udp_packet-answers_example :
    (b : Buf) × (deal_udp_packet discover 8 ≡ some (0, b, 8))
    × (get_u16 b 0 ≡ some Cmd.box_discover_resp)
    × (get_u16 b 2 ≡ some 8)
    × (get_u8 b 4 ≡ some 0)
    × (get_u8 b 5 ≡ some 1)
    × (get_u16 b 6 ≡ some 1)
unfolding get_u16
deal_udp_packet-answers_example =
    deal_udp_packet-answers discover 8 Cmd.box_discover 8 (omega arith) refl refl
