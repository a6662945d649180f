-- ===== src/Sim/Pad/Shown/Lists.antt =====
-- The lists of ids and of statuses in the replies of core_daemon/network.c, as the loops of
-- misc/pad_sim.c read them.
use hsbsw.Prelude.{
  ℕ, zero, suc, ◌+◌, ◌*◌, ◌/◌, ◌^◌, ◌≤◌, ◌<◌, ◌≡◌, ◌∙◌, refl, List, [], ◌∷◌, some, arith, length,
  All,
}
use hsbsw.Network.Field.{Buf, poke, get_u16, get_u32, set_u16, set_u32}
use hsbsw.Network.Reply.{put_ids, put_status}
use hsbsw.Network.RoundTrip.{word16, word32}
use hsbsw.Sim.Pad.Shown.{show_ids, show_entries}

-- `c` has the first `n` bytes of `b`.
pub record Begins (c b : Buf) (n : ℕ) : Type 0 where
  pub room : n ≤ c.size
  pub same : (i : ℕ) → i < n → c.byte i ≡ b.byte i

pub Begins-le : {c b : Buf} {n : ℕ} (m : ℕ) → m ≤ n → Begins c b n → Begins c b m
Begins-le m h g = record { room = omega (arith, g.room); same = λ i k. g.same i (omega arith) }

pub Begins-trans : {c b a : Buf} {n : ℕ} → Begins c b n → Begins b a n → Begins c a n
Begins-trans g h = record { room = g.room; same = λ i k. g.same i k ∙ h.same i k }

-- A write of four bytes, and a read of them in an array that begins alike.
pub get_u32-set_u32 :
    (buf : Buf) (off v : ℕ)
    → off + 4 ≤ buf.size
    → v < 2 ^ 32
    → (b : Buf) × (set_u32 buf off v ≡ some b)
      × (b.size ≡ buf.size)
      × Begins b buf off
      × ((c : Buf) → Begins c b (off + 4) → get_u32 c off ≡ some v)
unfolding set_u32 get_u32
get_u32-set_u32 buf off v room small =
    let b =
      poke (poke (poke (poke buf off v) (off + 1) (v / 256)) (off + 2) (v / 65536)) (off + 3)
        (v / 16777216) in
    (
      b,
      ground arith,
      refl,
      record { room = omega arith; same = λ i h. ground arith },
      λ c g. ground (
        arith,
        g.room,
        g.same off,
        g.same (off + 1),
        g.same (off + 2),
        g.same (off + 3),
        word32 v small,
      ),
    )

pub get_u16-set_u16 :
    (buf : Buf) (off v : ℕ)
    → off + 2 ≤ buf.size
    → v < 2 ^ 16
    → (b : Buf) × (set_u16 buf off v ≡ some b)
      × (b.size ≡ buf.size)
      × Begins b buf off
      × ((c : Buf) → Begins c b (off + 2) → get_u16 c off ≡ some v)
unfolding set_u16 get_u16
get_u16-set_u16 buf off v room small =
    let b = poke (poke buf off v) (off + 1) (v / 256) in
    (
      b,
      ground arith,
      refl,
      record { room = omega arith; same = λ i h. ground arith },
      λ c g. ground (arith, g.room, g.same off, g.same (off + 1), word16 v small),
    )

-- The ids that a reply lists are those that the client reads, in an array that begins as the reply does.
pub show_ids-put_ids :
    (ds : List ℕ) (id : ℕ) (buf : Buf)
    → 4 + (id + length ds) * 4 ≤ buf.size
    → All (λ d. d < 2 ^ 32) ds
    → (b : Buf) × (put_ids id ds buf ≡ some b)
      × (b.size ≡ buf.size)
      × Begins b buf (4 + id * 4)
      × ((c : Buf) → Begins c b (4 + (id + length ds) * 4) → show_ids (length ds) id c ≡ some ds)
unfolding put_ids show_ids
show_ids-put_ids [] id buf room small =
    (buf, refl, refl, record { room = omega arith; same = λ i h. refl }, λ c g. refl)
show_ids-put_ids (d ∷ ds) id buf room small =
    let (b, e, s, keeps, read) = get_u32-set_u32 buf (4 + id * 4) d (omega arith) small.0 in
    let (b', e', s', keeps', read') = show_ids-put_ids ds (suc id) b (omega (arith, s)) small.1 in
    (
      b',
      rw e e',
      s' ∙ s,
      Begins-trans (Begins-le (4 + id * 4) (omega arith) keeps') keeps,
      λ c g.
          rw
            (
              read c (
                  Begins-trans (Begins-le (4 + id * 4 + 4) (omega arith) g)
                    (Begins-le (4 + id * 4 + 4) (omega arith) keeps')),
              read' c (Begins-le (4 + (suc id + length ds) * 4) (omega arith) g),
            )
            refl,
    )

-- The first `num` entries of a status.
abbrev pub entries : ℕ → List ℕ → List ℕ → List (ℕ × ℕ)
entries zero is vs = []
entries (suc num) [] vs = []
entries (suc num) (i ∷ is) [] = []
entries (suc num) (i ∷ is) (v ∷ vs) = (i, v) ∷ entries num is vs

-- The same of the entries of a status.
pub show_entries-put_status :
    (num id : ℕ) (is vs : List ℕ) (buf : Buf)
    → num ≤ length is
    → num ≤ length vs
    → 8 + 4 * (id + num) ≤ buf.size
    → All (λ i. i < 2 ^ 16) is
    → All (λ v. v < 2 ^ 16) vs
    → (b : Buf) × (put_status num id is vs buf ≡ some b)
      × (b.size ≡ buf.size)
      × Begins b buf (8 + 4 * id)
      × ((c : Buf)
          → Begins c b (8 + 4 * (id + num))
          → show_entries num id c ≡ some (entries num is vs))
unfolding put_status show_entries
show_entries-put_status zero id is vs buf h k room p q =
    (buf, refl, refl, record { room = omega arith; same = λ i h. refl }, λ c g. refl)
show_entries-put_status (suc num) id [] vs buf h k room p q = absurd (omega arith)
show_entries-put_status (suc num) id (i ∷ is) [] buf h k room p q = absurd (omega arith)
show_entries-put_status (suc num) id (i ∷ is) (v ∷ vs) buf h k room p q =
    let (a, d, r, holds, get) = get_u16-set_u16 buf (8 + 4 * id) i (omega arith) p.0 in
    let (b, e, s, keeps, read) = get_u16-set_u16 a (10 + 4 * id) v (omega (arith, r)) q.0 in
    let (b', e', s', keeps', read') =
      show_entries-put_status num (suc id) is vs b (omega arith) (omega arith) (omega (arith, r, s))
        p.1 q.1 in
    let at : 8 + id * 4 ≡ 8 + 4 * id = omega arith in
    let at' : 10 + id * 4 ≡ 10 + 4 * id = omega arith in
    (
      b',
      rw (d, e) e',
      s' ∙ s ∙ r,
      Begins-trans (Begins-le (8 + 4 * id) (omega arith) keeps')
          (Begins-trans (Begins-le (8 + 4 * id) (omega arith) keeps) holds),
      λ c g.
          rw
            (
              at,
              at',
              get c (
                  Begins-trans (Begins-le (8 + 4 * id + 2) (omega arith) g) (
                    Begins-trans (Begins-le (8 + 4 * id + 2) (omega arith) keeps')
                      (Begins-le (8 + 4 * id + 2) (omega arith) keeps))),
              read c (
                  Begins-trans (Begins-le (10 + 4 * id + 2) (omega arith) g)
                    (Begins-le (10 + 4 * id + 2) (omega arith) keeps')),
              read' c (Begins-le (8 + 4 * (suc id + num)) (omega arith) g),
            )
            refl,
    )
