-- ===== src/Network/Pool.antt =====
-- The pool of client contexts of core_daemon/network.c: `get_client_context`, `put_client_context`
-- and `_process_notify`.
pub mod Laws
use hsbsw.Prelude.{ℕ, zero, suc, true, false, List, [], ◌∷◌, Option, none, some}
use hsbsw.Device.Types.{Resp, Client}
use hsbsw.Network.Field.{Buf, ◌>>=◌, zero_buf}
use hsbsw.Network.Reply.{make_notify_resp}

abbrev pub max_tcp_client_num : ℕ
max_tcp_client_num = 5

-- The loop for the first context that is not in use; the result is its index.
unfoldable pub free_context : ℕ → List Client → Option ℕ
free_context cnt [] = none
free_context cnt (pctx ∷ rest) =
    let next = free_context (suc cnt) rest in elim pctx.using [ true ↦ next | false ↦ some cnt ]

-- The writes to the context; the queue is left as it is.
unfoldable pub take_context : ℕ → ℕ → Client → Client
take_context sockfd unfd pctx = record pctx { using = true; tcp_sockfd = sockfd; un_sockfd = unfd }

unfoldable pub update_context : ℕ → (Client → Client) → List Client → List Client
update_context i f [] = []
update_context zero f (pctx ∷ rest) = f pctx ∷ rest
update_context (suc i) f (pctx ∷ rest) = pctx ∷ update_context i f rest

-- `unfd` is the socket that `unix_socket_new_listen` opens on the context's path.
unfoldable pub get_client_context : ℕ → ℕ → List Client → Option ℕ × List Client
get_client_context sockfd unfd pool = elim (free_context 0 pool) [
  | none ↦ (none, pool)
  | some cnt ↦ (some cnt, update_context cnt (take_context sockfd unfd) pool)
]

unfoldable pub put_client_context : ℕ → List Client → List Client
put_client_context i pool = update_context i (λ pctx. record pctx { using = false }) pool

-- The loop of `_process_notify` while the client takes what is written: the packets, oldest first.
-- `none` is a write out of the 64 bytes of `buf`.
unfoldable pub notify_packets : List Resp → Option (List (Buf × ℕ))
unfolding make_notify_resp
notify_packets [] = some []
notify_packets (resp ∷ q) = do
  packet ← make_notify_resp resp.body (zero_buf 64)
  packets ← notify_packets q
  some (packet ∷ packets)

unfoldable pub process_notify : Client → Option (List (Buf × ℕ) × Client)
unfolding notify_packets
process_notify pctx = do
  packets ← notify_packets pctx.queue
  some (packets, record pctx { queue = [] })
