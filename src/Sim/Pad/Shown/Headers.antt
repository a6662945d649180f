-- ===== src/Sim/Pad/Shown/Headers.antt =====
-- The parts that the replies of core_daemon/network.c share, as misc/pad_sim.c reads them.
use hsbsw.Prelude.{ℕ, ◌-◌, ◌/◌, ◌^◌, ◌≤◌, ◌<◌, ◌≡◌, ◌∙◌, refl, List, [], ◌∷◌, some, arith, length}
use hsbsw.Codes.Cmd
use hsbsw.Device.Types.{Dev, Drv}
use hsbsw.Network.Field.{Buf, get_u16, get_u32, make_cmd_hdr}
use hsbsw.Sim.Laws.{arrived}
use hsbsw.Sim.Pad.Shown.{ids, dev_identity, dev_status, show_ids, show_entries, deal_tcp_pkt}
use hsbsw.Sim.Pad.Shown.Written.{device_info, about}
use hsbsw.Sim.Pad.Shown.Lists.{Begins, Begins-le, Begins-trans, get_u16-set_u16}

-- A packet of `len` bytes is read.
pub arrived-Begins :
    (stack : ℕ → ℕ) (b : Buf) (len : ℕ) → len ≤ 1024 → Begins (arrived stack 1024 b len) b len
arrived-Begins stack b len h = record { room = h; same = λ i k. ground arith }

-- What a header says.
pub make_cmd_hdr-read :
    (cmd len : ℕ) (buf : Buf)
    → 4 ≤ buf.size
    → cmd < 2 ^ 16
    → len < 2 ^ 16
    → (b : Buf) × (make_cmd_hdr cmd len buf ≡ some b)
      × (b.size ≡ buf.size)
      × ((c : Buf) → Begins c b 4 → (get_u16 c 0 ≡ some cmd) × (get_u16 c 2 ≡ some len))
unfolding make_cmd_hdr
make_cmd_hdr-read cmd len buf room h k =
    let (b, e, s, keeps, read) = get_u16-set_u16 buf 0 cmd (omega arith) h in
    let (b', e', s', keeps', read') = get_u16-set_u16 b 2 len (omega (arith, s)) k in
    (
      b',
      rw e e',
      s' ∙ s,
      λ c g. (read c (Begins-trans (Begins-le 2 (omega arith) g) keeps'), read' c g),
    )

pub deal_tcp_pkt-ids :
    (c : Buf) (len n : ℕ) (ds : List ℕ)
    → get_u16 c 0 ≡ some Cmd.get_devs_resp
    → get_u16 c 2 ≡ some len
    → (len - 4) / 4 ≡ n
    → show_ids n 0 c ≡ some ds
    → deal_tcp_pkt c ≡ some (ids ds)
unfolding deal_tcp_pkt
deal_tcp_pkt-ids c len n ds h k m e = rw (h, k, m, e) refl

pub deal_tcp_pkt-status :
    (c : Buf) (len n devid : ℕ) (es : List (ℕ × ℕ))
    → get_u16 c 0 ≡ some Cmd.get_status_resp
    → get_u16 c 2 ≡ some len
    → get_u32 c 4 ≡ some devid
    → (len - 8) / 4 ≡ n
    → show_entries n 0 c ≡ some es
    → deal_tcp_pkt c ≡ some (dev_status devid es)
unfolding deal_tcp_pkt
deal_tcp_pkt-status c len n devid es h k d m e = rw (h, k, d, m, e) refl

pub six_bytes :
    (mac : List ℕ)
    → 6 ≤ length mac
    → (m₀ : ℕ) × (m₁ : ℕ) × (m₂ : ℕ) × (m₃ : ℕ) × (m₄ : ℕ) × (m₅ : ℕ) × (rest : List ℕ) × (mac
        ≡ m₀ ∷ m₁ ∷ m₂ ∷ m₃ ∷ m₄ ∷ m₅ ∷ rest)
six_bytes [] h = absurd (omega arith)
six_bytes (a ∷ []) h = absurd (omega arith)
six_bytes (a ∷ b ∷ []) h = absurd (omega arith)
six_bytes (a ∷ b ∷ c ∷ []) h = absurd (omega arith)
six_bytes (a ∷ b ∷ c ∷ d ∷ []) h = absurd (omega arith)
six_bytes (a ∷ b ∷ c ∷ d ∷ e ∷ []) h = absurd (omega arith)
six_bytes (a ∷ b ∷ c ∷ d ∷ e ∷ f ∷ rest) h = (a, b, c, d, e, f, rest, refl)

pub about-info :
    (dev : Dev) (d : Drv) (m₀ m₁ m₂ m₃ m₄ m₅ : ℕ) (rest : List ℕ)
    → dev.driver ≡ some d
    → dev.info.mac ≡ m₀ ∷ m₁ ∷ m₂ ∷ m₃ ∷ m₄ ∷ m₅ ∷ rest
    → about (device_info dev)
      ≡ dev_identity dev.id d.id dev.info.cls dev.info.interface (m₀ ∷ m₁ ∷ m₂ ∷ m₃ ∷ m₄ ∷ m₅ ∷ [])
about-info dev d m₀ m₁ m₂ m₃ m₄ m₅ rest e m = ground (arith, e, m)
