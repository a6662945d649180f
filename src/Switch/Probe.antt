-- ===== src/Switch/Probe.antt =====
-- The search for switches: `virtual_switch_probe` of core_daemon/driver_virtual_switch.c.
pub mod Steps
pub mod Total
use mathlib.Core.Path.{subst}
use hsbsw.Prelude.{
  ℕ, ◌+◌, ◌^◌, ◌<◌, ◌≤◌, ◌≡◌, ◌≢◌, refl, sym, ap, ◌∙◌, arith, Bool, List, [], ◌∷◌, Option, none,
  some, length, ◌==◌, ltb, leb, not, ◌||◌, if◌then◌else◌, Bool-cases, Option-cases, inl, inr,
}
use hsbsw.Codes.{minus_one}
use hsbsw.Device.Types.{World, virtual_switch_op}
use hsbsw.Device.Find.{find_drv}
use hsbsw.Device.Registry.{dev_online}
use hsbsw.Device.System.{Step, Reach}
use hsbsw.Device.System.Moves.{dev_online-counter}
use hsbsw.Network.Field.{Buf, ◌>>=◌, get_u16, get_u32, get_bytes, set_u16, zero_buf, advance}
use hsbsw.Switch.{VsInfo, VsBox, vs_drv_id, dev_info, register_device}
use hsbsw.Switch.Laws.{Reach-trans, register_device_cases}

-- What one `recvfrom_timeout` gives: its result, an int, as its 32-bit pattern; the address and the
-- bytes of a datagram that has come; and whether its `tv` is left with seconds and microseconds.
pub record Receipt : Type 0 where
  pub ret : ℕ
  pub addr : ℕ
  pub byte : ℕ → ℕ
  pub more : Bool

abbrev pub vs_device_discover : ℕ
vs_device_discover = 0x8901

abbrev pub vs_device_discover_resp : ℕ
vs_device_discover_resp = 0x8902

-- A `VS_INFO_T *`, read
unfoldable pub get_vs_info : Buf → Option VsInfo
unfolding get_bytes get_u16 get_u32
get_vs_info ptr = do
  dev_class ← get_u16 ptr 0
  interface ← get_u16 ptr 2
  mac ← get_bytes 6 ptr 4
  status_bm ← get_u32 ptr 12
  event_bm ← get_u32 ptr 16
  action_bm ← get_u32 ptr 20
  some (record {
    dev_class = dev_class;
    interface = interface;
    mac = mac;
    status_bm = status_bm;
    event_bm = event_bm;
    action_bm = action_bm;
  })

-- The bytes that were sent: the broadcast.
unfoldable pub probe_frame : Option Buf
unfolding set_u16
probe_frame = do b ← set_u16 (zero_buf 64) 0 vs_device_discover; set_u16 b 2 8

-- `rbuf` after a receipt; a failure leaves it as it is.
abbrev pub receive : Receipt → Buf → Buf
receive r rbuf =
    if leb r.ret rbuf.size
    then record rbuf { byte = λ i. if ltb i r.ret then r.byte i else rbuf.byte i }
    else rbuf

-- A datagram of at least `count` bytes, and so, since the comparison is of a size_t, a failure, too.
unfoldable pub probe_answer : ℕ → Buf → VsBox → Option VsBox
probe_answer addr rbuf b =
    let registered : Option VsBox = do
      info ← get_vs_info (advance 8 rbuf)
      r ← register_device addr info b
      some r.1
    in do
      cmd ← get_u16 rbuf 0
      len ← get_u16 rbuf 2
      if not (cmd == vs_device_discover_resp) || not (len == 32) then some b else registered

-- The loop, with what is still to come.
unfoldable pub probe_loop : List Receipt → ℕ → Buf → VsBox → Option VsBox
probe_loop [] count rbuf b = some b
probe_loop (r ∷ rs) count rbuf b =
    let buf = receive r rbuf in
    let next : ℕ → VsBox → Option VsBox =
      λ n c. (let rest = probe_loop rs n buf c in if r.more then rest else some c) in
    let dealt : Option VsBox = probe_answer r.addr buf b >>= next 32 in
    if ltb r.ret count then next count b else dealt

-- `stack` is what the uninitialised `rbuf` holds, and `found` whether there is a broadcast address.
unfoldable pub virtual_switch_probe : Bool → List Receipt → (ℕ → ℕ) → VsBox → Option (ℕ × VsBox)
virtual_switch_probe found rs stack b =
    let probed : Option (ℕ × VsBox) = do
      c ← probe_loop rs 8 (record { size = 64; byte = stack }) b
      some (0, c)
    in if not found then some (minus_one, b) else probed
