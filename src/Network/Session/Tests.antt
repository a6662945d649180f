-- ===== src/Network/Session/Tests.antt =====
-- A client that asks for a probe, is told a result and leaves.
use mathlib.Core.List.{Nodup-nil, not-mem-nil}
use hsbsw.Prelude.{true, false, [], ◌∷◌, some, ◌==◌, if◌then◌else◌}
use hsbsw.Device.Types.{World, Client, Resp, result}
use hsbsw.Device.Find.{get_dev_id_list}
use hsbsw.Device.System.Invariant.{IsValid}
use hsbsw.Network.Field.{Buf}
use hsbsw.Network.Session.{Turn, closed, bytes, tcp_client_handler}
use hsbsw.Network.Session.Laws.{LeavesValid, tcp_client_handler-LeavesValid}

abbrev told : Resp
told = record { body = result 0; reply = some 0 }

abbrev client : Client
client = record { tcp_sockfd = 5; un_sockfd = 6; queue = told ∷ []; using = true; notified = 1 }

abbrev free : Client
free = record { tcp_sockfd = 0; un_sockfd = 0; queue = []; using = false; notified = 0 }

abbrev idle : World
idle = record {
  cb = record {
    queue = [];
    offq = [];
    driverq = [];
    dev_id = 1;
    work_mode = 0;
    sec_today = 0;
    async = record { data_queue = []; active = true; mem = true };
  };
  pool = client ∷ free ∷ [];
}

idle-IsValid : IsValid idle.cb
unfolding get_dev_id_list
idle-IsValid = record {
  online = tt;
  offline = tt;
  ids = record { distinct = Nodup-nil; fresh = λ i m. absurd (not-mem-nil m) };
}

-- A PROBE packet of 6 bytes.
abbrev probes : Buf
probes = record {
  size = 1024;
  byte = λ i. if i == 0 then 0x61 else if i == 1 then 0x88 else if i == 3 then 0 else 6;
}

abbrev asks : Turn
asks = record { meanwhile = λ w. w; failed = false; arrival = bytes probes 6; notified = true }

abbrev leaves : Turn
leaves = record { meanwhile = λ w. w; failed = false; arrival = closed; notified = false }

tcp_client_handler-LeavesValid_example :
    LeavesValid (tcp_client_handler 0 (asks ∷ leaves ∷ []) idle)
tcp_client_handler-LeavesValid_example =
    tcp_client_handler-LeavesValid 0 (asks ∷ leaves ∷ []) idle ((λ w v. v), ((λ w v. v), tt))
      idle-IsValid
