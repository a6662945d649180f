-- ===== src/Device/System/Moves.antt =====
-- The invariant as devices come and go, in `dev_online` and `dev_offline` of core_daemon/device.c.
use mathlib.Core.Path.{subst}
use hsbsw.Prelude.{
  ℕ, ◌+◌, ◌^◌, ◌<◌, ◌≤◌, ◌≡◌, ◌≢◌, refl, sym, ap, ◌∙◌, List, [], ◌∷◌, ◌++◌, Option, none, some, All,
  arith, ◌⊎◌, ◌%◌, Option-cases, inl, inr,
}
use hsbsw.Codes.Updated
use hsbsw.Codes.WorkMode
use hsbsw.Codes.EvtType
use hsbsw.Device.Types.{Dev, Drv, Info, OpTable, DeviceCb, World, zero_dev}
use hsbsw.Device.Find.{find_drv}
use hsbsw.Device.Event.{dev_updated, set_box_work_mode, dev_mode_changed}
use hsbsw.Device.Event.Mem.{dev_updated-mem}
use hsbsw.Device.Event.Laws.{dev_event-SameDevices}
use hsbsw.Device.Registry.{
  Search, register_dev_drv, dev_online, dev_offline, remove_dev, off_search, queue_search, pop_nth,
}
use hsbsw.Device.Registry.Queue.{queue_search_lem, off_search_lem}
use hsbsw.Device.Check.{Now, check_timer_and_delay}
use hsbsw.Device.Check.Sized.{IsGood, check_all-IsGood, ids-check_all}
use hsbsw.Device.System.Invariant.{
  IsValid, SameDevices-IsValid, goes-IsValid, drops-IsValid, comes_back-IsValid, new-IsValid,
}

dev_updated-IsValid :
    (devid type : ℕ) (w : World) → IsValid w.cb → IsValid (dev_updated devid type w).cb
unfolding dev_updated
dev_updated-IsValid devid type w v = SameDevices-IsValid (dev_event-SameDevices devid _ type 0 w) v

pub dev_offline-IsValid :
    (devid : ℕ) (w : World) → IsValid w.cb → IsValid (dev_offline devid w).1.cb
unfolding dev_offline
dev_offline-IsValid devid w v = elim (Option-cases (queue_search devid 0 w.cb.queue)) [
  | inl e ↦ rw (e, dev_offline) v
  | inr ((i, d), e) ↦
      let (n, p, found, same) = queue_search_lem devid 0 w.cb.queue i d e in
      let at : i ≡ n = omega arith in
      rw (e, at, dev_offline)
        (dev_updated-IsValid devid Updated.offline _ (goes-IsValid w.cb n d found v))
]

pub remove_dev-IsValid : (devid : ℕ) (w : World) → IsValid w.cb → IsValid (remove_dev devid w).cb
unfolding remove_dev
remove_dev-IsValid devid w v = elim (Option-cases (queue_search devid 0 w.cb.queue)) [
  | inl e ↦ rw (e, remove_dev) (dev_updated-IsValid devid Updated.offline w v)
  | inr ((i, d), e) ↦
      let (n, p, found, same) = queue_search_lem devid 0 w.cb.queue i d e in
      let at : i ≡ n = omega arith in
      rw (e, at, remove_dev)
        (dev_updated-IsValid devid Updated.offline _ (drops-IsValid w.cb n d found v))
]

set_mode_cases :
    (P : World → Type 0) (mode : ℕ) (w : World)
    → P w
    → P (dev_mode_changed mode (record w { cb = record (w.cb) { work_mode = mode } }))
    → P (set_box_work_mode mode w).1
unfolding set_box_work_mode
set_mode_cases P mode w same changed = ground arith

pub set_box_work_mode-IsValid :
    (mode : ℕ) (w : World) → IsValid w.cb → IsValid (set_box_work_mode mode w).1.cb
unfolding dev_mode_changed
set_box_work_mode-IsValid mode w v =
    set_mode_cases (λ u. IsValid u.cb) mode w v
      (SameDevices-IsValid
        (dev_event-SameDevices 0 EvtType.mode_changed mode 0
          (record w { cb = record (w.cb) { work_mode = mode } }))
        (record { online = v.online; offline = v.offline; ids = v.ids }))

pub check-IsValid :
    (clock : ℕ → Now) (w : World) → IsValid w.cb → IsValid (check_timer_and_delay clock w).1.cb
unfolding check_timer_and_delay
check-IsValid clock w v =
    let (same, off, next, drv) = ids-check_all clock 0 w.cb.queue w.cb in
    record {
      online = check_all-IsGood clock 0 w.cb.queue w.cb v.online;
      offline = subst (All IsGood) (sym off) v.offline;
      ids = rw (same, off, next) v.ids;
    }

-- The device that `add_new` queues.
filled-IsGood :
    (info : Info) (op : OpTable) (driver : Option Drv) (id mode : ℕ)
    → driver ≢ none
    → IsGood
        (record zero_dev { id = id; work_mode = mode; driver = driver; op = some op; info = info })
filled-IsGood info op driver id mode h = record {
  sized = omega arith;
  idle = (refl, (refl, (refl, (refl, (refl, (refl, (refl, (refl, tt))))))));
  owned = h;
}

-- The device that `dev_online` makes, and the state in which it announces it.
abbrev pub new_dev : ℕ → Info → OpTable → DeviceCb → Dev
new_dev drvid info op cb = record zero_dev {
  id = cb.dev_id;
  work_mode = WorkMode.all;
  driver = find_drv cb.driverq drvid;
  op = some op;
  info = info;
}

abbrev pub with_new : ℕ → Info → OpTable → DeviceCb → DeviceCb
with_new drvid info op cb = record cb {
  queue = cb.queue ++ (new_dev drvid info op cb ∷ []);
  dev_id = (cb.dev_id + 1) % 2 ^ 32;
}

abbrev pub with_back : ℕ → Dev → DeviceCb → DeviceCb
with_back i d cb = record cb { queue = cb.queue ++ (d ∷ []); offq = pop_nth cb.offq i }

-- How a call of `dev_online` that returns went.
pub dev_online_cases :
    (drvid : ℕ) (info : Info) (op : OpTable) (w : World) (ret devid : ℕ) (w' : World)
    → dev_online drvid info op w ≡ some (ret, devid, w')
    → ((off_search drvid info.mac 0 w.cb.offq ≡ Search.missing)
        × (devid ≡ w.cb.dev_id)
        × (w'
            ≡ dev_updated w.cb.dev_id Updated.new_add
                (record w { cb = with_new drvid info op w.cb })))
      ⊎ ((i : ℕ) × (d : Dev) × (off_search drvid info.mac 0 w.cb.offq ≡ Search.found i d)
          × (devid ≡ d.id)
          × (w' ≡ dev_updated d.id Updated.online (record w { cb = with_back i d w.cb })))
unfolding dev_online
dev_online_cases drvid info op w ret devid w' e = go (off_search drvid info.mac 0 w.cb.offq) refl
  where
    go :
        (s : Search)
        → off_search drvid info.mac 0 w.cb.offq ≡ s
        → ((off_search drvid info.mac 0 w.cb.offq ≡ Search.missing)
            × (devid ≡ w.cb.dev_id)
            × (w'
                ≡ dev_updated w.cb.dev_id Updated.new_add
                    (record w { cb = with_new drvid info op w.cb })))
          ⊎ ((i : ℕ) × (d : Dev) × (off_search drvid info.mac 0 w.cb.offq ≡ Search.found i d)
              × (devid ≡ d.id)
              × (w' ≡ dev_updated d.id Updated.online (record w { cb = with_back i d w.cb })))
    go Search.fault p = absurd (ground arith)
    go Search.missing p = inl (p, ground arith, ground arith)
    go (Search.found i d) p = inr (i, d, p, ground arith, ground arith)

-- What an announced device leaves of the drivers, the counter and the allocator.
dev_updated-counter :
    (devid type : ℕ) (u w' : World)
    → w' ≡ dev_updated devid type u
    → (w'.cb.driverq ≡ u.cb.driverq)
      × (w'.cb.dev_id ≡ u.cb.dev_id)
      × (w'.cb.async.mem ≡ u.cb.async.mem)
unfolding dev_updated
dev_updated-counter devid type u w' s =
    let same = dev_event-SameDevices devid EvtType.dev_updated type 0 u in
    (
      ap (λ (x : World). x.cb.driverq) s ∙ same.driverq,
      ap (λ (x : World). x.cb.dev_id) s ∙ same.dev_id,
      ap (λ (x : World). x.cb.async.mem) s ∙ dev_updated-mem devid type u,
    )

-- The drivers stay, at most one id is handed out, and there is as much memory as before.
pub dev_online-counter :
    (drvid : ℕ) (info : Info) (op : OpTable) (ret devid : ℕ) (w w' : World)
    → dev_online drvid info op w ≡ some (ret, devid, w')
    → (w'.cb.driverq ≡ w.cb.driverq)
      × (w'.cb.dev_id ≤ w.cb.dev_id + 1)
      × (w'.cb.async.mem ≡ w.cb.async.mem)
dev_online-counter drvid info op ret devid w w' e =
    elim (dev_online_cases drvid info op w ret devid w' e) [
      | inl (p, i, s) ↦
          let (q, n, m) =
            dev_updated-counter w.cb.dev_id Updated.new_add
              (record w { cb = with_new drvid info op w.cb }) w' s in
          (q, omega (arith, n), m)
      | inr (i, d, p, j, s) ↦
          let (q, n, m) =
            dev_updated-counter d.id Updated.online (record w { cb = with_back i d w.cb }) w' s in
          (q, omega (arith, n), m)
    ]

pub dev_online-IsValid :
    (drvid : ℕ) (info : Info) (op : OpTable) (ret devid : ℕ) (w w' : World)
    → find_drv w.cb.driverq drvid ≢ none
    → w.cb.dev_id + 1 < 2 ^ 32
    → dev_online drvid info op w ≡ some (ret, devid, w')
    → IsValid w.cb
    → IsValid w'.cb
dev_online-IsValid drvid info op ret devid w w' known small e v =
    elim (dev_online_cases drvid info op w ret devid w' e) [
      | inl (p, i, s) ↦
          subst (λ u. IsValid u.cb) (sym s)
            (dev_updated-IsValid w.cb.dev_id Updated.new_add
              (record w { cb = with_new drvid info op w.cb })
              (new-IsValid w.cb (new_dev drvid info op w.cb) refl
                (filled-IsGood info op (find_drv w.cb.driverq drvid) w.cb.dev_id WorkMode.all known)
                small v))
      | inr (i, d, p, j, s) ↦ back i d p s
    ]
  where
    back :
        (i : ℕ) (d : Dev)
        → off_search drvid info.mac 0 w.cb.offq ≡ Search.found i d
        → w' ≡ dev_updated d.id Updated.online (record w { cb = with_back i d w.cb })
        → IsValid w'.cb
    back i d p s =
        let (n, q, found, same) = off_search_lem drvid info.mac 0 w.cb.offq i d p in
        let at : i ≡ n = omega arith in
        subst (λ u. IsValid u.cb) (sym s)
          (dev_updated-IsValid d.id Updated.online (record w { cb = with_back i d w.cb })
            (rw at (comes_back-IsValid w.cb n d found v)))

pub register_drv_cases :
    (P : DeviceCb → Type 0) (drv : Option Drv) (cb : DeviceCb)
    → P cb
    → ((q : List Drv) → P (record cb { driverq = q }))
    → P (register_dev_drv drv cb).1
unfolding register_dev_drv
register_drv_cases P none cb same more = same
register_drv_cases P (some drv) cb same more = ground (arith, more (cb.driverq ++ (drv ∷ [])))
