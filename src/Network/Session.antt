-- ===== src/Network/Session.antt =====
-- The threads that serve the clients, `tcp_client_handler` of core_daemon/network.c, from what the
-- system calls give them.
pub mod Laws
pub mod Contexts
mod Tests
use hsbsw.Prelude.{
  ℕ, Bool, true, false, List, [], ◌∷◌, ◌++◌, Option, none, some, get_elem?, if◌then◌else◌,
}
use hsbsw.Device.Types.{Client, World}
use hsbsw.Network.Field.{Buf, ◌>>=◌}
use hsbsw.Network.Pool.{get_client_context, put_client_context, process_notify, update_context}
use hsbsw.Network.Tcp.{Run, tcp_loop}

-- What the socket of a client brings: nothing, the end or an error, or the bytes of one read.
pub data Arrival : Type 0 where
  quiet closed : Arrival
  bytes : Buf → ℕ → Arrival

-- One turn of the loop: what the other threads do while `select` waits, whether it fails, and which
-- sockets are ready.
pub record Turn : Type 0 where
  pub meanwhile : World → World
  pub failed : Bool
  pub arrival : Arrival
  pub notified : Bool

-- How far it comes, with what was written to the client, oldest first.
pub data Served : Type 0 where
  goes_on ends : List (Buf × ℕ) → World → Served
  crashes spins : Served

abbrev pub after_writing : List (Buf × ℕ) → Served → Served
after_writing out (Served.goes_on more w) = Served.goes_on (out ++ more) w
after_writing out (Served.ends more w) = Served.ends (out ++ more) w
after_writing out Served.crashes = Served.crashes
after_writing out Served.spins = Served.spins

-- The next part, if the first does not end the thread.
unfoldable pub and_then : Served → (World → Served) → Served
and_then (Served.goes_on out w) next = after_writing out (next w)
and_then (Served.ends out w) next = Served.ends out w
and_then Served.crashes next = Served.crashes
and_then Served.spins next = Served.spins

unfoldable pub of_run : Run → Served
of_run (Run.done out w) = Served.goes_on out w
of_run Run.fault = Served.crashes
of_run Run.out_of_fuel = Served.spins

-- The socket of the client at place `i` of the pool.
unfoldable pub serve_bytes : ℕ → Arrival → World → Served
serve_bytes i quiet w = Served.goes_on [] w
serve_bytes i closed w = Served.ends [] w
serve_bytes i (bytes buf nread) w = of_run (tcp_loop nread buf nread (some i) w)

-- The packets of `_process_notify` for the context at place `i`, and the context without its responses.
unfoldable pub write_notified : ℕ → World → Option (List (Buf × ℕ) × Client) → Served
write_notified i w none = Served.crashes
write_notified i w (some (out, pctx)) =
    Served.goes_on out (record w { pool = update_context i (λ c. pctx) w.pool })

-- The local socket, on which `notify_resp` says that there are responses.
unfoldable pub serve_notify : ℕ → Bool → World → Served
serve_notify i false w = Served.goes_on [] w
serve_notify i true w = write_notified i w (get_elem? w.pool i >>= process_notify)

unfoldable pub serve_turn : ℕ → Turn → World → Served
serve_turn i t w =
    let w' = t.meanwhile w in
    if t.failed
    then Served.ends [] w'
    else and_then (serve_bytes i t.arrival w') (serve_notify i t.notified)

-- `put_client_context`, when the loop has ended.
unfoldable pub leave : ℕ → Served → Served
leave i (Served.goes_on out w) = Served.goes_on out w
leave i (Served.ends out w) = Served.ends out (record w { pool = put_client_context i w.pool })
leave i Served.crashes = Served.crashes
leave i Served.spins = Served.spins

-- The loop of `tcp_client_handler`, and what comes behind it.
unfoldable pub tcp_client_handler : ℕ → List Turn → World → Served
tcp_client_handler i [] w = Served.goes_on [] w
tcp_client_handler i (t ∷ ts) w = and_then (leave i (serve_turn i t w)) (tcp_client_handler i ts)
