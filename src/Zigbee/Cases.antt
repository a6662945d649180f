-- ===== src/Zigbee/Cases.antt =====
-- The ways in which the functions for a frame end, for proofs about all of them at once.
use mathlib.Core.Path.{subst}
use hsbsw.Prelude.{
  ℕ, ◌≡◌, refl, arith, List, [], ◌∷◌, ◌++◌, Option, none, some, ◌==◌, ◌-◌, ltb, leb, ◌||◌, not,
  Bool-cases, Option-cases, inl, inr,
}
use hsbsw.Codes.Error
use hsbsw.Device.Types.{World, sample_op}
use hsbsw.Device.Registry.{dev_online}
use hsbsw.Network.Field.{Buf, ◌>>=◌, get_u16, get_u32, advance}
use hsbsw.Zigbee.{
  cz_header_magic, cz_header_len, CzDev, CzInfo, CzBox, cz_drv, cz_dev_info, cz_find_by_mac,
  cz_find_by_short_addr, cz_register_device, cz_event, cz_status_updated,
}
use hsbsw.Zigbee.Frame.{
  cz_device_discover_resp, cz_evt, cz_status_changed, get_cz_info, deal_discovered, deal_event,
  deal_status_changed, deal_unsolicited, deal_recv_buf, read_into, monitor_frame,
}

-- A chain of accesses that gets through has got through its first.
pub >>=-some {ℓ κ} :
    {A : Type ℓ} {B : Type κ} (o : Option A) (f : A → Option B) (b : B)
    → (o >>= f) ≡ some b
    → (a : A) × (o ≡ some a) × (f a ≡ some b)
>>=-some none f b e = ground (arith, e)
>>=-some (some a) f b e = (a, refl, e)

module _ {ℓ} (P : CzBox → Type ℓ) (b b' : CzBox) (ret : ℕ) where
  pub deal_event_cases :
      (ptr : Buf) (short_addr : ℕ)
      → P b
      → ((pdev : CzDev) (id param param2 : ℕ)
          → P (record b { world = cz_event pdev.id id param param2 b.world }))
      → deal_event ptr short_addr b ≡ some (ret, b')
      → P b'
  unfolding deal_event
  deal_event_cases ptr short_addr stays happens e =
      let (id, e1, e) = >>=-some (get_u16 ptr 4) _ _ e in
      let (param, e2, e) = >>=-some (get_u16 ptr 6) _ _ e in
      let (param2, e3, e) = >>=-some (get_u32 ptr 8) _ _ e in
      elim (Option-cases (cz_find_by_short_addr b.queue short_addr)) [
        | inl n ↦ subst P (ground (arith, n, e)) stays
        | inr (pdev, n) ↦ subst P (ground (arith, n, e)) (happens pdev id param param2)
      ]

  pub deal_status_changed_cases :
      (ptr : Buf) (short_addr : ℕ)
      → P b
      → ((pdev : CzDev) (id val : ℕ)
          → P (record b { world = cz_status_updated pdev.id id val b.world }))
      → deal_status_changed ptr short_addr b ≡ some (ret, b')
      → P b'
  unfolding deal_status_changed
  deal_status_changed_cases ptr short_addr stays changes e =
      let (id, e1, e) = >>=-some (get_u16 ptr 4) _ _ e in
      let (val, e2, e) = >>=-some (get_u16 ptr 6) _ _ e in
      elim (Option-cases (cz_find_by_short_addr b.queue short_addr)) [
        | inl n ↦ subst P (ground (arith, n, e)) stays
        | inr (pdev, n) ↦ subst P (ground (arith, n, e)) (changes pdev id val)
      ]

  pub deal_discovered_cases :
      (ptr : Buf) (rlen short_addr end_point : ℕ)
      → P b
      → ((info : CzInfo) (r : ℕ) (c : CzBox)
          → cz_register_device short_addr end_point info b ≡ some (r, c)
          → P c)
      → deal_discovered ptr rlen short_addr end_point b ≡ some (ret, b')
      → P b'
  unfolding deal_discovered
  deal_discovered_cases ptr rlen short_addr end_point stays registers e =
      elim (Bool-cases (not (32 == rlen))) [
        | inl h ↦ subst P (ground (arith, h, e)) stays
        | inr h ↦ elim (Option-cases (get_cz_info (advance 8 ptr))) [
          | inl n ↦ absurd (ground (arith, h, n, e))
          | inr (info, i) ↦ elim (Option-cases (cz_register_device short_addr end_point info b)) [
            | inl n ↦ absurd (ground (arith, h, i, n, e))
            | inr ((r, c), k) ↦ subst P (ground (arith, h, i, k, e)) (registers info r c k)
          ]
        ]
      ]

  pub deal_unsolicited_cases :
      (ptr : Buf) (cmd rlen short_addr end_point : ℕ)
      → P b
      → ((pdev : CzDev) (id param param2 : ℕ)
          → P (record b { world = cz_event pdev.id id param param2 b.world }))
      → ((pdev : CzDev) (id val : ℕ)
          → P (record b { world = cz_status_updated pdev.id id val b.world }))
      → ((info : CzInfo) (r : ℕ) (c : CzBox)
          → cz_register_device short_addr end_point info b ≡ some (r, c)
          → P c)
      → deal_unsolicited ptr cmd rlen short_addr end_point b ≡ some (ret, b')
      → P b'
  unfolding deal_unsolicited
  deal_unsolicited_cases ptr cmd rlen short_addr end_point stays happens changes registers e =
      elim (Bool-cases (cmd == cz_device_discover_resp)) [
        | inl c ↦
            deal_discovered_cases ptr rlen short_addr end_point stays registers
              (ground (arith, c, e))
        | inr c ↦ elim (Bool-cases (cmd == cz_evt)) [
          | inl d ↦ deal_event_cases ptr short_addr stays happens (ground (arith, c, d, e))
          | inr d ↦ elim (Bool-cases (cmd == cz_status_changed)) [
            | inl f ↦
                deal_status_changed_cases ptr short_addr stays changes (ground (arith, c, d, f, e))
            | inr f ↦ subst P (ground (arith, c, d, f, e)) stays
          ]
        ]
      ]

-- What the registration of a device leaves: the box as it was, or the registry with the device in it,
-- and perhaps a new entry of the queue.
pub cz_register_device_cases {ℓ} :
    (P : CzBox → Type ℓ) (short_addr end_point : ℕ) (info : CzInfo) (b c : CzBox) (r : ℕ)
    → P b
    → ((r' devid : ℕ) (w : World)
        → dev_online cz_drv.id (cz_dev_info info) sample_op b.world ≡ some (r', devid, w)
        → (q : List CzDev) → P (record b { queue = q; world = w }))
    → cz_register_device short_addr end_point info b ≡ some (r, c)
    → P c
unfolding cz_register_device
cz_register_device_cases P short_addr end_point info b c r stays comes e =
    elim (Option-cases (cz_find_by_mac b.queue info.mac)) [
      | inr (d, there) ↦ subst P (ground (arith, there, e)) stays
      | inl n ↦ elim (Option-cases (dev_online cz_drv.id (cz_dev_info info) sample_op b.world)) [
        | inl f ↦ absurd (ground (arith, n, f, e))
        | inr ((r', devid, w), f) ↦ elim (Bool-cases (not (r' == Error.ok))) [
          | inl g ↦ subst P (ground (arith, n, f, g, e)) (comes r' devid w f b.queue)
          | inr g ↦ elim (Bool-cases w.cb.async.mem) [
            | inl m ↦ subst P (ground (arith, n, f, g, m, e)) (
                comes r' devid w f (
                  b.queue
                  ++ (record {
                    id = devid;
                    short_addr = short_addr;
                    end_point = end_point;
                    idle_time = 0;
                    info = info;
                  }
                      ∷ [])))
            | inr m ↦ subst P (ground (arith, n, f, g, m, e)) (comes r' devid w f b.queue)
          ]
        ]
      ]
    ]

-- What a frame leaves: the box as it was, or what `deal_recv_buf` makes of the bytes read.
pub monitor_frame_cases {ℓ} :
    (P : CzBox → Type ℓ) (rbuf : Buf) (nread : ℕ) (body : ℕ → ℕ) (ret : ℕ) (b b' : CzBox)
    → P b
    → ((r : Buf) (cmd_len e : ℕ) (c : CzBox) → deal_recv_buf r cmd_len b ≡ some (e, c) → P c)
    → monitor_frame rbuf nread body ret b ≡ some b'
    → P b'
unfolding monitor_frame
monitor_frame_cases P rbuf nread body ret b b' stays deals e = elim (Bool-cases (ltb nread 12)) [
  | inl s ↦ subst P (ground (arith, s, e)) stays
  | inr s ↦ elim (Option-cases (get_u16 rbuf 0)) [
    | inl n ↦ absurd (ground (arith, s, n, e))
    | inr (magic, m) ↦ elim (Option-cases (get_u16 rbuf 2)) [
      | inl n ↦ absurd (ground (arith, s, m, n, e))
      | inr (cmd_len, l) ↦
          elim (Bool-cases (not (magic == cz_header_magic) || leb cmd_len cz_header_len)) [
            | inl g ↦ subst P (ground (arith, s, m, l, g, e)) stays
            | inr g ↦ elim (Option-cases (read_into rbuf nread body ret)) [
              | inl n ↦ absurd (ground (arith, s, m, l, g, n, e))
              | inr (r, i) ↦ elim (Bool-cases (ltb ret (cmd_len - cz_header_len))) [
                | inl t ↦ subst P (ground (arith, s, m, l, g, i, t, e)) stays
                | inr t ↦ elim (Option-cases (deal_recv_buf r cmd_len b)) [
                  | inl n ↦ absurd (ground (arith, s, m, l, g, i, t, n, e))
                  | inr ((ret', c), d) ↦
                      subst P (ground (arith, s, m, l, g, i, t, d, e)) (deals r cmd_len ret' c d)
                ]
              ]
            ]
          ]
    ]
  ]
]
