-- ===== src/Sim/Laws.antt =====
-- The driver of core_daemon/driver_virtual_switch.c and the simulator of misc/switch_sim.c together.
use hsbsw.Prelude.{ℕ, ◌+◌, ◌/◌, Option, none, some, ◌==◌, ltb, if◌then◌else◌}
use hsbsw.Codes.Error
use hsbsw.Network.Field.{poke, zero_buf, Buf}
use hsbsw.Switch.Ops.{vs_set_status}
use hsbsw.Sim.{Datagram, sim_udp_pkt}

-- A datagram of `n` bytes in an array of `size` bytes that held others.
abbrev pub arrived : (ℕ → ℕ) → ℕ → Buf → ℕ → Buf
arrived stack size b n = record { size = size; byte = λ i. if ltb i n then b.byte i else stack i }

-- What `_transfer` gives for an answer; no bytes are a failure.
abbrev pub replied : (ℕ → ℕ) → Option Datagram → Option (Buf × ℕ)
replied stack none = none
replied stack (some d) = if d.1 == 0 then none else some (arrived stack 64 d.0 d.1, d.1)

-- `_transfer` with the simulator, whose `status_on_off` is `s`, at the other end.
abbrev pub sim_transfer : (ℕ → ℕ) → ℕ → ℕ → Buf → ℕ → Option (Buf × ℕ)
sim_transfer stack s ip b len = elim (sim_udp_pkt (arrived stack 1024 b len) len s) [
  | none ↦ none
  | some r ↦ replied stack r.reply
]

abbrev poke_u16 : Buf → ℕ → ℕ → Buf
poke_u16 b off v = poke (poke b off v) (off + 1) (v / 256)

-- The bytes of a request to set status 0: the command, the length 8, the status and its value.
abbrev pub set_frame : ℕ → Buf
set_frame val =
    poke_u16 (poke_u16 (poke_u16 (poke_u16 (zero_buf 64) 0 vs_set_status) 2 8) 4 0) 6 val
