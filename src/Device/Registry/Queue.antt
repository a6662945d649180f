-- ===== src/Device/Registry/Queue.antt =====
-- The searches of `dev_online` and `dev_offline` of core_daemon/device.c, and `g_queue_pop_nth`.
use mathlib.Core.List.{Perm}
use mathlib.Core.List.Perm
use hsbsw.Prelude.{
  ℕ, zero, suc, ◌+◌, ◌≡◌, List, [], ◌∷◌, none, some, All, arith, get_elem?, ◌==◌, Bool-cases,
  Option-cases, inl, inr, ◌≢◌, ◌&&◌, true,
}
use hsbsw.Device.Types.{Dev}
use hsbsw.Device.Find.{get_dev_id_list}
use hsbsw.Device.Registry.{Search, off_search, pop_nth, queue_search, same_bytes}

pub pop_nth-perm :
    (q : List Dev) (n : ℕ) (d : Dev)
    → get_elem? q n ≡ some d
    → Perm (get_dev_id_list q) (d.id ∷ get_dev_id_list (pop_nth q n))
unfolding pop_nth get_dev_id_list
pop_nth-perm [] n d e = absurd (cc)
pop_nth-perm (x ∷ q) zero d e =
    let same : x.id ≡ d.id = ground arith in Perm.cons' same (Perm.refl (get_dev_id_list q))
pop_nth-perm (x ∷ q) (suc n) d e =
    Perm.trans (Perm.cons x.id (pop_nth-perm q n d e)) (Perm.swap d.id x.id _)

pub queue_search_lem :
    (devid k : ℕ) (q : List Dev) (i : ℕ) (d : Dev)
    → queue_search devid k q ≡ some (i, d)
    → (n : ℕ) × (i ≡ k + n) × (get_elem? q n ≡ some d) × (d.id ≡ devid)
unfolding queue_search
queue_search_lem devid k [] i d e = absurd (cc)
queue_search_lem devid k (x ∷ q) i d e = elim (Bool-cases (x.id == devid)) [
  | inl hit ↦ (zero, ground arith, ground arith, ground arith)
  | inr miss ↦
      let (n, p, found, same) = queue_search_lem devid (suc k) q i d (ground arith) in
      (suc n, omega arith, found, same)
]

-- What the loop of `dev_online` finds has the driver and the address that it looked for.
pub off_search_lem :
    (drvid : ℕ) (mac : List ℕ) (k : ℕ) (q : List Dev) (i : ℕ) (d : Dev)
    → off_search drvid mac k q ≡ Search.found i d
    → (n : ℕ) × (i ≡ k + n) × (get_elem? q n ≡ some d) × (same_bytes d.info.mac mac ≡ true)
unfolding off_search
off_search_lem drvid mac k [] i d e = absurd (cc)
off_search_lem drvid mac k (x ∷ q) i d e = elim (Option-cases x.driver) [
  | inl no_driver ↦ absurd (ground arith)
  | inr (drv, owned) ↦ elim (Bool-cases ((drv.id == drvid) && same_bytes x.info.mac mac)) [
    | inl hit ↦ (zero, ground arith, ground arith, ground arith)
    | inr miss ↦
        let (n, p, found, same) = off_search_lem drvid mac (suc k) q i d (ground arith) in
        (suc n, omega arith, found, same)
  ]
]

-- Where every device of the offline queue has a driver, the loop reads through no NULL.
pub off_search-ne-fault :
    (drvid : ℕ) (mac : List ℕ) (k : ℕ) (q : List Dev)
    → All (λ (d : Dev). d.driver ≢ none) q
    → off_search drvid mac k q ≢ Search.fault
unfolding off_search
off_search-ne-fault drvid mac k [] h = cc
off_search-ne-fault drvid mac k (x ∷ q) h = elim (Option-cases x.driver) [
  | inl no_driver ↦ absurd (h.0 no_driver)
  | inr (drv, owned) ↦ ground (arith, off_search-ne-fault drvid mac (suc k) q h.1)
]
