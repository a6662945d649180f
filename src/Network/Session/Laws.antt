-- ===== src/Network/Session/Laws.antt =====
-- What a client's thread of core_daemon/network.c leaves behind.
use hsbsw.Prelude.{
  ℕ, ◌≡◌, refl, Bool, true, false, Bool-cases, inl, inr, List, [], ◌∷◌, Option, none, some, All,
}
use hsbsw.Device.Types.{Client, World}
use hsbsw.Device.System.Invariant.{IsValid}
use hsbsw.Network.Field.{Buf}
use hsbsw.Network.Tcp.{Run, tcp_loop}
use hsbsw.Network.Tcp.Keeps.{tcp_loop-IsValid}
use hsbsw.Network.Session.{
  and_then, of_run, leave, write_notified, Arrival, quiet, closed, bytes, Turn, Served,
  after_writing, serve_bytes, serve_notify, serve_turn, tcp_client_handler,
}

-- The devices are well formed where the thread has come to.
abbrev pub LeavesValid : Served → Type 0
LeavesValid (Served.goes_on out w) = IsValid w.cb
LeavesValid (Served.ends out w) = IsValid w.cb
LeavesValid Served.crashes = Unit
LeavesValid Served.spins = Unit

-- The other threads keep them so.
abbrev pub Keeps : Turn → Type 0
Keeps t = (w : World) → IsValid w.cb → IsValid (t.meanwhile w).cb

after_writing-LeavesValid :
    (out : List (Buf × ℕ)) (s : Served) → LeavesValid s → LeavesValid (after_writing out s)
after_writing-LeavesValid out (Served.goes_on more w) v = v
after_writing-LeavesValid out (Served.ends more w) v = v
after_writing-LeavesValid out Served.crashes v = tt
after_writing-LeavesValid out Served.spins v = tt

of_run-LeavesValid :
    (r : Run)
    → ((out : List (Buf × ℕ)) (w : World) → r ≡ Run.done out w → IsValid w.cb)
    → LeavesValid (of_run r)
unfolding of_run
of_run-LeavesValid (Run.done out w) h = h out w refl
of_run-LeavesValid Run.fault h = tt
of_run-LeavesValid Run.out_of_fuel h = tt

serve_bytes-LeavesValid :
    (i : ℕ) (a : Arrival) (w : World) → IsValid w.cb → LeavesValid (serve_bytes i a w)
unfolding serve_bytes
serve_bytes-LeavesValid i quiet w v = v
serve_bytes-LeavesValid i closed w v = v
serve_bytes-LeavesValid i (bytes buf n) w v =
    of_run-LeavesValid (tcp_loop n buf n (some i) w)
      (λ out w' e. tcp_loop-IsValid n buf n (some i) w w' out v e)

write_notified-LeavesValid :
    (i : ℕ) (w : World) (o : Option (List (Buf × ℕ) × Client))
    → IsValid w.cb
    → LeavesValid (write_notified i w o)
unfolding write_notified
write_notified-LeavesValid i w none v = tt
write_notified-LeavesValid i w (some (out, pctx)) v = v

serve_notify-LeavesValid :
    (i : ℕ) (b : Bool) (w : World) → IsValid w.cb → LeavesValid (serve_notify i b w)
unfolding serve_notify
serve_notify-LeavesValid i false w v = v
serve_notify-LeavesValid i true w v = write_notified-LeavesValid i w _ v

and_then-LeavesValid :
    (s : Served) (f : World → Served)
    → LeavesValid s
    → ((w : World) → IsValid w.cb → LeavesValid (f w))
    → LeavesValid (and_then s f)
unfolding and_then
and_then-LeavesValid (Served.goes_on out w) f v h = after_writing-LeavesValid out (f w) (h w v)
and_then-LeavesValid (Served.ends out w) f v h = v
and_then-LeavesValid Served.crashes f v h = tt
and_then-LeavesValid Served.spins f v h = tt

serve_turn-LeavesValid :
    (i : ℕ) (t : Turn) (w : World) → Keeps t → IsValid w.cb → LeavesValid (serve_turn i t w)
unfolding serve_turn
serve_turn-LeavesValid i t w k v =
    let w' = t.meanwhile w in
    let served =
      and_then-LeavesValid (serve_bytes i t.arrival w') (serve_notify i t.notified)
        (serve_bytes-LeavesValid i t.arrival w' (k w v)) (serve_notify-LeavesValid i t.notified) in
    elim (Bool-cases t.failed) [ inl e ↦ rw e (k w v) | inr e ↦ rw e served ]

leave-LeavesValid : (i : ℕ) (s : Served) → LeavesValid s → LeavesValid (leave i s)
unfolding leave
leave-LeavesValid i (Served.goes_on out w) v = v
leave-LeavesValid i (Served.ends out w) v = v
leave-LeavesValid i Served.crashes v = tt
leave-LeavesValid i Served.spins v = tt

-- Whatever a client sends, in whatever reads, and whatever the other threads do meanwhile that keeps
-- the devices well formed: where the client's thread has come to, or has ended, they are well formed,
-- unless an access out of an array or a packet of length 0 has stopped it.
pub tcp_client_handler-LeavesValid :
    (i : ℕ) (ts : List Turn) (w : World)
    → All Keeps ts
    → IsValid w.cb
    → LeavesValid (tcp_client_handler i ts w)
unfolding tcp_client_handler
tcp_client_handler-LeavesValid i [] w k v = v
tcp_client_handler-LeavesValid i (t ∷ ts) w k v =
    and_then-LeavesValid (leave i (serve_turn i t w)) (tcp_client_handler i ts)
      (leave-LeavesValid i (serve_turn i t w) (serve_turn-LeavesValid i t w k.0 v))
      (λ w' v'. tcp_client_handler-LeavesValid i ts w' k.1 v')
