-- ===== src/Device/System/Reached.antt =====
-- What holds of the box of core_daemon/device.c after any steps.
use hsbsw.Prelude.{ℕ, ◌≡◌, ◌≢◌, refl, List, [], ◌∷◌, none, some, true, All, arith}
use hsbsw.Device.Types.{Dev, Info, OpTable, AsyncCtl, World}
use hsbsw.Device.Find.{find_dev}
use hsbsw.Device.Find.Laws.{find_dev-All}
use hsbsw.Device.Event.Laws.{dev_event-SameDevices}
use hsbsw.Device.Registry.{dev_online, off_search, Search}
use hsbsw.Device.Registry.Queue.{off_search-ne-fault}
use hsbsw.Device.Check.{delay_loop}
use hsbsw.Device.Check.Day.{delay_loop_idle}
use hsbsw.Device.Check.Sized.{IsGood}
use hsbsw.Device.System.{Step, Reach}
use hsbsw.Device.System.Invariant.{IsValid, SameDevices-IsValid}
use hsbsw.Device.System.Writes.{
  set_dev_timer-IsValid, del_dev_timer-IsValid, set_dev_delay-IsValid, del_dev_delay-IsValid,
  set_dev_linkage-IsValid, del_dev_linkage-IsValid,
}
use hsbsw.Device.System.Moves.{
  dev_online-IsValid, dev_offline-IsValid, remove_dev-IsValid, set_box_work_mode-IsValid,
  check-IsValid, register_drv_cases,
}

-- Every step of the box keeps its invariant: ids distinct and below the counter, arrays of full
-- length, a driver for every device, and no delay started.
pub Step-IsValid : (w : World) {w' : World} → Step w w' → IsValid w.cb → IsValid w'.cb
Step-IsValid w (Step.sets_timer i t) v = set_dev_timer-IsValid i t w v
Step-IsValid w (Step.dels_timer i k) v = del_dev_timer-IsValid i k w v
Step-IsValid w (Step.sets_delay i t) v = set_dev_delay-IsValid i t w v
Step-IsValid w (Step.dels_delay i k) v = del_dev_delay-IsValid i k w v
Step-IsValid w (Step.sets_linkage i t) v = set_dev_linkage-IsValid i t w v
Step-IsValid w (Step.dels_linkage i k) v = del_dev_linkage-IsValid i k w v
Step-IsValid w {w'} (Step.comes drvid info op ret devid u known small e) v =
    dev_online-IsValid drvid info op ret devid w _ known small e v
Step-IsValid w (Step.goes i) v = dev_offline-IsValid i w v
Step-IsValid w (Step.removes i) v = remove_dev-IsValid i w v
Step-IsValid w (Step.happens i type p1 p2) v =
    SameDevices-IsValid (dev_event-SameDevices i type p1 p2 w) v
Step-IsValid w (Step.sets_mode m) v = set_box_work_mode-IsValid m w v
Step-IsValid w (Step.checks clock) v = check-IsValid clock w v
Step-IsValid w (Step.loads drv) v =
    register_drv_cases IsValid drv w.cb v
      (λ q. record { online = v.online; offline = v.offline; ids = v.ids })
Step-IsValid w (Step.requests async) v = record {
  online = v.online;
  offline = v.offline;
  ids = v.ids;
}
Step-IsValid w (Step.connects pool) v = v

pub Reach-IsValid : {w w' : World} → Reach w w' → IsValid w.cb → IsValid w'.cb
Reach-IsValid Reach.here v = v
Reach-IsValid (Reach.next {u = u} r s) v = Step-IsValid u s (Reach-IsValid r v)

-- However the box gets to a state from a well-formed one, its delay loop does nothing there, at any time, in any mode and
-- for any device that is online: a delay that a client has set never goes off.
pub delay_never_fires :
    {w w' : World} (dev_id mode now : ℕ) (pdev : Dev) (c : AsyncCtl)
    → IsValid w.cb
    → Reach w w'
    → find_dev w'.cb.queue dev_id ≡ some pdev
    → delay_loop pdev.id mode now pdev.delay pdev.delay_status c
      ≡ record { delay_status = pdev.delay_status; async = c }
delay_never_fires {w' = w'} dev_id mode now pdev c v r e =
    delay_loop_idle pdev.id mode now pdev.delay pdev.delay_status c good.idle
  where
    good : IsGood pdev
    good = find_dev-All IsGood w'.cb.queue dev_id pdev (Reach-IsValid r v).online e

All-owned : (q : List Dev) → All IsGood q → All (λ (d : Dev). d.driver ≢ none) q
All-owned [] h = tt
All-owned (d ∷ q) h = (h.0.owned, All-owned q h.1)

-- However the box gets to a state from a well-formed one, a call of `dev_online` there returns while there is memory: it
-- reads through no NULL driver and writes through no NULL device.
pub dev_online_total :
    {w w' : World} (drvid : ℕ) (info : Info) (op : OpTable)
    → IsValid w.cb
    → Reach w w'
    → w'.cb.async.mem ≡ true
    → dev_online drvid info op w' ≢ none
unfolding dev_online
dev_online_total {w' = w'} drvid info op v r h = go (off_search drvid info.mac 0 w'.cb.offq) refl
  where
    go :
        (s : Search)
        → off_search drvid info.mac 0 w'.cb.offq ≡ s
        → dev_online drvid info op w' ≢ none
    go Search.fault p = absurd (
        off_search-ne-fault drvid info.mac 0 w'.cb.offq
          (All-owned w'.cb.offq (Reach-IsValid r v).offline) p)
    go Search.missing p = ground arith
    go (Search.found i d) p = ground arith
