-- ===== src/Network/Pool/Laws.antt =====
-- Which client gets which context of the pool of core_daemon/network.c, and what it finds there.
use mathlib.Core.Option
use hsbsw.Prelude.{
  ℕ, zero, suc, ◌+◌, ◌≡◌, refl, List, [], ◌∷◌, ◌++◌, none, some, true, false, ◌==◌, if◌then◌else◌,
  arith, get_elem?, All, length, ap,
}
use hsbsw.Device.Types.{Client}
use hsbsw.Network.Pool.{
  free_context, take_context, update_context, get_client_context, put_client_context,
}

get_elem?-update :
    (i : ℕ) (f : Client → Client) (pool : List Client) (j : ℕ)
    → get_elem? (update_context i f pool) j
      ≡ (if i == j then Option.map f (get_elem? pool j) else get_elem? pool j)
unfolding update_context
get_elem?-update i f [] j = ground arith
get_elem?-update zero f (c ∷ pool) zero = refl
get_elem?-update zero f (c ∷ pool) (suc j) = ground arith
get_elem?-update (suc i) f (c ∷ pool) zero = ground arith
get_elem?-update (suc i) f (c ∷ pool) (suc j) = ground (arith, get_elem?-update i f pool j)

-- The loop finds the first context that is not in use.
free_context-first :
    (k : ℕ) (before : List Client) (c : Client) (rest : List Client)
    → All (λ (d : Client). d.using ≡ true) before
    → c.using ≡ false
    → free_context k (before ++ (c ∷ rest)) ≡ some (length before + k)
unfolding free_context
free_context-first k [] c rest h u = rw u (ground arith)
free_context-first k (d ∷ before) c rest h u =
    rw h.0 (ground (arith, free_context-first (suc k) before c rest h.1 u))

free_context-at :
    (before : List Client) (c : Client) (rest : List Client)
    → All (λ (d : Client). d.using ≡ true) before
    → c.using ≡ false
    → free_context 0 (before ++ (c ∷ rest)) ≡ some (length before)
free_context-at before c rest h u = ground (arith, free_context-first 0 before c rest h u)

free_context-full :
    (k : ℕ) (pool : List Client)
    → All (λ (d : Client). d.using ≡ true) pool
    → free_context k pool ≡ none
unfolding free_context
free_context-full k [] h = refl
free_context-full k (d ∷ pool) h = rw h.0 (free_context-full (suc k) pool h.1)

update_context-at :
    (f : Client → Client) (before : List Client) (c : Client) (rest : List Client)
    → update_context (length before) f (before ++ (c ∷ rest)) ≡ before ++ (f c ∷ rest)
unfolding update_context
update_context-at f [] c rest = refl
update_context-at f (d ∷ before) c rest = ap (λ l. d ∷ l) (update_context-at f before c rest)

-- While all contexts are in use a client gets NULL and the pool stays as it is; with one that is
-- not in use behind them, the client gets that one, with its two sockets and with the responses that
-- the context still held, and every other context stays as it is.
pub get_client_context-first :
    (sockfd unfd : ℕ) (before : List Client) (c : Client) (rest : List Client)
    → All (λ (d : Client). d.using ≡ true) before
    → c.using ≡ false
    → (get_client_context sockfd unfd before ≡ (none, before))
      × (get_client_context sockfd unfd (before ++ (c ∷ rest)) ≡ (
        some (length before),
        before
            ++ (record {
              tcp_sockfd = sockfd;
              un_sockfd = unfd;
              queue = c.queue;
              using = true;
              notified = c.notified;
            }
                ∷ rest),
      ))
unfolding get_client_context take_context
get_client_context-first sockfd unfd before c rest h u = (
  rw (get_client_context, free_context-full 0 before h) refl,
  rw
      (
        get_client_context,
        free_context-at before c rest h u,
        update_context-at (take_context sockfd unfd) before c rest,
      )
      refl,
)

-- When all contexts are in use and a client leaves, the next client gets the context left, with
-- the responses to the client before still queued.
pub get_client_context-put_client_context :
    (sockfd unfd : ℕ) (before : List Client) (c : Client) (rest : List Client)
    → All (λ (d : Client). d.using ≡ true) before
    → get_client_context sockfd unfd (put_client_context (length before) (before ++ (c ∷ rest)))
      ≡ (some (length before), before ++ (take_context sockfd unfd c ∷ rest))
unfolding put_client_context take_context
get_client_context-put_client_context sockfd unfd before c rest h =
    let freed = record c { using = false } in
    rw (update_context-at (λ p. record p { using = false }) before c rest)
      ((get_client_context-first sockfd unfd before freed rest h refl).1)
