-- ===== src/Device/System/Return.antt =====
-- A device that goes offline and comes back: `dev_offline` and `dev_online` of
-- core_daemon/device.c.
use mathlib.Core.List.{Mem, Nodup-cons, mem-cons}
use mathlib.Core.List.Nodup
use mathlib.Core.List.Perm
use mathlib.Core.Logic.Or
use mathlib.Core.Path.{subst, ap}
use hsbsw.Device.Find.Laws.{find_dev-id}
use hsbsw.Prelude.{
  ℕ, zero, suc, ◌+◌, ◌≡◌, refl, sym, List, [], ◌∷◌, ◌++◌, none, some, true, ◌==◌, arith, Bool-cases,
  inl, inr, get_elem?, length, ◌∙◌,
}
use hsbsw.Codes.Error
use hsbsw.Codes.Updated
use hsbsw.Codes.EvtType
use hsbsw.Device.Types.{Dev, Drv, Info, OpTable, DeviceCb, World}
use hsbsw.Device.Find.{find_dev, get_dev_id_list}
use hsbsw.Device.Event.{dev_updated}
use hsbsw.Device.Event.Laws.{SameDevices, dev_event-SameDevices}
use hsbsw.Device.Registry.{
  Search, dev_online, dev_offline, off_search, queue_search, pop_nth, same_bytes, add_back,
}
use hsbsw.Device.Registry.Queue.{pop_nth-perm}
use hsbsw.Device.System.Invariant.{IsValid}

same_bytes_refl : (xs : List ℕ) → same_bytes xs xs ≡ true
unfolding same_bytes
same_bytes_refl [] = refl
same_bytes_refl (x ∷ xs) = ground (arith, same_bytes_refl xs)

-- A search for an id that no device has.
find_dev_absent : (q : List Dev) (i : ℕ) → (¬ Mem i (get_dev_id_list q)) → find_dev q i ≡ none
unfolding find_dev get_dev_id_list
find_dev_absent [] i h = refl
find_dev_absent (d ∷ q) i h = elim (Bool-cases (d.id == i)) [
  | inl hit ↦ absurd (h (mem-cons.1 (Or.inl (ground arith))))
  | inr miss ↦ rw miss (find_dev_absent q i (λ m. h (mem-cons.1 (Or.inr m))))
]

find_dev-append :
    (p : List Dev) (d : Dev) (i : ℕ)
    → find_dev p i ≡ none
    → d.id ≡ i
    → find_dev (p ++ (d ∷ [])) i ≡ some d
unfolding find_dev
find_dev-append [] d i h e = ground arith
find_dev-append (x ∷ p) d i h e = ground (arith, find_dev-append p d i)

-- The loop of `dev_offline` finds what `_find_dev` finds.
search_finds :
    (devid k : ℕ) (q : List Dev) (d : Dev)
    → find_dev q devid ≡ some d
    → (n : ℕ) × (queue_search devid k q ≡ some (k + n, d)) × (get_elem? q n ≡ some d)
unfolding find_dev queue_search
search_finds devid k [] d e = absurd (cc)
search_finds devid k (x ∷ q) d e = elim (Bool-cases (x.id == devid)) [
  | inl hit ↦ (zero, ground arith, ground arith)
  | inr miss ↦
      let (n, s, g) = search_finds devid (suc k) q d (ground arith) in (suc n, ground (arith, s), g)
]

-- The loop of `dev_online` finds a device at the end of the queue if none before it fits.
off_search-append :
    (drvid : ℕ) (mac : List ℕ) (k : ℕ) (q : List Dev) (d : Dev) (drv : Drv)
    → off_search drvid mac k q ≡ Search.missing
    → d.driver ≡ some drv
    → drv.id ≡ drvid
    → same_bytes d.info.mac mac ≡ true
    → off_search drvid mac k (q ++ (d ∷ [])) ≡ Search.found (k + length q) d
unfolding off_search
off_search-append drvid mac k [] d drv miss owned same bytes = ground arith
off_search-append drvid mac k (x ∷ q) d drv miss owned same bytes =
    ground (arith, off_search-append drvid mac (suc k) q d drv)

abbrev gone : ℕ → Dev → DeviceCb → DeviceCb
gone n d cb = record cb { queue = pop_nth cb.queue n; offq = cb.offq ++ (d ∷ []) }

dev_offline_found :
    (devid : ℕ) (d : Dev) (w : World)
    → find_dev w.cb.queue devid ≡ some d
    → (n : ℕ) × (get_elem? w.cb.queue n ≡ some d)
      × (dev_offline devid w
          ≡ (Error.ok, dev_updated devid Updated.offline (record w { cb = gone n d w.cb })))
unfolding dev_offline
dev_offline_found devid d w e =
    let (n, s, g) = search_finds devid 0 w.cb.queue d e in
    let at : 0 + n ≡ n = omega arith in (n, g, rw (s, at, dev_offline))

dev_online_found :
    (drvid : ℕ) (info : Info) (op : OpTable) (w : World) (i : ℕ) (d : Dev)
    → off_search drvid info.mac 0 w.cb.offq ≡ Search.found i d
    → dev_online drvid info op w ≡ some (add_back i d w)
unfolding dev_online
dev_online_found drvid info op w i d e = rw (e, dev_online)

-- After the device has been taken out, no other has its id.
absent_when_gone :
    (cb : DeviceCb) (n : ℕ) (d : Dev)
    → IsValid cb
    → get_elem? cb.queue n ≡ some d
    → find_dev (pop_nth cb.queue n) d.id ≡ none
absent_when_gone cb n d v g =
    find_dev_absent (pop_nth cb.queue n) d.id
      (Nodup-cons.0 (
        Perm.nodup (pop_nth-perm cb.queue n d g)
          (Nodup.of_append_left (get_dev_id_list cb.offq) v.ids.distinct))).0

came_back :
    (w : World) (devid : ℕ) (d : Dev) (drvid : ℕ) (info : Info) (op : OpTable) (i : ℕ)
    → d.id ≡ devid
    → off_search drvid info.mac 0 w.cb.offq ≡ Search.found i d
    → find_dev w.cb.queue devid ≡ none
    → (w'' : World) × (dev_online drvid info op w ≡ some (Error.ok, devid, w''))
      × (find_dev w''.cb.queue devid ≡ some d)
unfolding add_back dev_updated
came_back w devid d drvid info op i same s absent = (
  (add_back i d w).2,
  dev_online_found drvid info op w i d s ∙ ap (λ k. some (Error.ok, k, (add_back i d w).2)) same,
  rw (kept.queue) (find_dev-append w.cb.queue d devid absent same),
)
  where
    kept :
        SameDevices
          (add_back i d w).2.cb
          (record (w.cb) { offq = pop_nth w.cb.offq i; queue = w.cb.queue ++ (d ∷ []) })
    kept = dev_event-SameDevices d.id EvtType.dev_updated Updated.online 0 (record w {
      cb = record (w.cb) { offq = pop_nth w.cb.offq i; queue = w.cb.queue ++ (d ∷ []) };
    })

dev_offline-SameDevices :
    (devid : ℕ) (d : Dev) (w : World) (n : ℕ)
    → dev_offline devid w
      ≡ (Error.ok, dev_updated devid Updated.offline (record w { cb = gone n d w.cb }))
    → SameDevices (dev_offline devid w).1.cb (gone n d w.cb)
unfolding dev_updated
dev_offline-SameDevices devid d w n o =
    subst (λ (r : ℕ × World). SameDevices r.1.cb (gone n d w.cb)) (sym o)
      (dev_event-SameDevices devid EvtType.dev_updated Updated.offline 0
        (record w { cb = gone n d w.cb }))

-- In a well-formed state: a device goes offline, is found by nobody then, and comes back with its driver and its address:
-- it gets its old id back and is the device that it was, with all its timers, delays and linkages,
-- if no other device of the driver with that address is offline.
pub dev_online-dev_offline :
    (devid : ℕ) (d : Dev) (drv : Drv) (op : OpTable) (w : World)
    → IsValid w.cb
    → find_dev w.cb.queue devid ≡ some d
    → d.driver ≡ some drv
    → off_search drv.id d.info.mac 0 w.cb.offq ≡ Search.missing
    → let w' = (dev_offline devid w).1 in
      ((dev_offline devid w).0 ≡ Error.ok)
      × (find_dev w'.cb.queue devid ≡ none)
      × ((w'' : World) × (dev_online drv.id d.info op w' ≡ some (Error.ok, devid, w''))
          × (find_dev w''.cb.queue devid ≡ some d))
dev_online-dev_offline devid d drv op w v e owned alone =
    let (n, g, o) = dev_offline_found devid d w e in
    let s = dev_offline-SameDevices devid d w n o in
    let i : d.id ≡ devid = find_dev-id w.cb.queue devid d e in
    let absent : find_dev (dev_offline devid w).1.cb.queue devid ≡ none =
      subst (λ k. find_dev (dev_offline devid w).1.cb.queue k ≡ none) i
        (rw (s.queue) (absent_when_gone w.cb n d v g)) in
    let found : off_search drv.id d.info.mac 0 (dev_offline devid w).1.cb.offq
        ≡ Search.found (0 + length w.cb.offq) d =
      rw (s.offq) (
        off_search-append drv.id d.info.mac 0 w.cb.offq d drv alone owned refl
          (same_bytes_refl d.info.mac)) in
    (
      ap (λ (r : ℕ × World). r.0) o,
      absent,
      came_back (dev_offline devid w).1 devid d drv.id d.info op (0 + length w.cb.offq) i found
          absent,
    )
