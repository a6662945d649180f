-- ===== src/Device/System/Invariant.antt =====
-- The invariant of the box: every device is well formed, with a driver and no started delay, and the
-- ids of the devices, online or offline, are distinct and were handed out by the counter.
use mathlib.Core.Path.{subst}
use hsbsw.Prelude.{
  ℕ, zero, suc, ◌+◌, ◌%◌, ◌^◌, ◌<◌, ◌≡◌, sym, List, [], ◌∷◌, ◌++◌, some, All, All-append, arith,
  get_elem?,
}
use hsbsw.Device.Types.{Dev, DeviceCb}
use hsbsw.Device.Find.{update_dev}
use hsbsw.Device.Find.Laws.{update_dev-All}
use hsbsw.Device.Event.Laws.{SameDevices}
use hsbsw.Device.Registry.{pop_nth}
use hsbsw.Device.Check.Sized.{IsGood}
use hsbsw.Device.System.Ids.{
  AreIds, AreIds-perm, AreIds-cons, both, both_goes, both_drops, AreIds-tail, both_comes_back,
  both_new, ids-update_dev, pop_nth-All,
}

pub record IsValid (cb : DeviceCb) : Type 0 where
  pub online : All IsGood cb.queue
  pub offline : All IsGood cb.offq
  pub ids : AreIds (both cb.queue cb.offq) cb.dev_id

pub SameDevices-IsValid : {a b : DeviceCb} → SameDevices a b → IsValid b → IsValid a
SameDevices-IsValid s v = record {
  online = subst (All IsGood) (sym s.queue) v.online;
  offline = subst (All IsGood) (sym s.offq) v.offline;
  ids = rw (s.queue, s.offq, s.dev_id) v.ids;
}

-- A write to one device that keeps its id and leaves it well formed.
pub write-IsValid :
    (dev_id : ℕ) (f : Dev → Dev) (cb : DeviceCb)
    → ((d : Dev) → (f d).id ≡ d.id)
    → ((d : Dev) → IsGood d → IsGood (f d))
    → IsValid cb
    → IsValid (record cb { queue = update_dev cb.queue dev_id f })
write-IsValid dev_id f cb same good v = record {
  online = update_dev-All IsGood cb.queue dev_id f good v.online;
  offline = v.offline;
  ids = rw (ids-update_dev cb.queue dev_id f same) v.ids;
}

get_elem?-All : (q : List Dev) (n : ℕ) (d : Dev) → All IsGood q → get_elem? q n ≡ some d → IsGood d
get_elem?-All [] n d h e = absurd (cc)
get_elem?-All (x ∷ q) zero d h e = let same : x ≡ d = ground arith in subst IsGood same h.0
get_elem?-All (x ∷ q) (suc n) d h e = get_elem?-All q n d h.1 e

-- `dev_offline` before its event.
pub goes-IsValid :
    (cb : DeviceCb) (n : ℕ) (d : Dev)
    → get_elem? cb.queue n ≡ some d
    → IsValid cb
    → IsValid (record cb { queue = pop_nth cb.queue n; offq = cb.offq ++ (d ∷ []) })
goes-IsValid cb n d e v = record {
  online = pop_nth-All IsGood cb.queue n v.online;
  offline =
      All-append IsGood cb.offq (d ∷ []) v.offline (get_elem?-All cb.queue n d v.online e, tt);
  ids = AreIds-perm (both_goes cb.queue cb.offq n d e) v.ids;
}

-- `remove_dev` before its event.
pub drops-IsValid :
    (cb : DeviceCb) (n : ℕ) (d : Dev)
    → get_elem? cb.queue n ≡ some d
    → IsValid cb
    → IsValid (record cb { queue = pop_nth cb.queue n })
drops-IsValid cb n d e v = record {
  online = pop_nth-All IsGood cb.queue n v.online;
  offline = v.offline;
  ids = AreIds-tail (AreIds-perm (both_drops cb.queue cb.offq n d e) v.ids);
}

pub comes_back-IsValid :
    (cb : DeviceCb) (n : ℕ) (d : Dev)
    → get_elem? cb.offq n ≡ some d
    → IsValid cb
    → IsValid (record cb { queue = cb.queue ++ (d ∷ []); offq = pop_nth cb.offq n })
comes_back-IsValid cb n d e v = record {
  online = All-append IsGood cb.queue (d ∷ []) v.online (get_elem?-All cb.offq n d v.offline e, tt);
  offline = pop_nth-All IsGood cb.offq n v.offline;
  ids = AreIds-perm (both_comes_back cb.queue cb.offq n d e) v.ids;
}

pub new-IsValid :
    (cb : DeviceCb) (d : Dev)
    → d.id ≡ cb.dev_id
    → IsGood d
    → cb.dev_id + 1 < 2 ^ 32
    → IsValid cb
    → IsValid (record cb { queue = cb.queue ++ (d ∷ []); dev_id = (cb.dev_id + 1) % 2 ^ 32 })
new-IsValid cb d e good small v = record {
  online = All-append IsGood cb.queue (d ∷ []) v.online (good, tt);
  offline = v.offline;
  ids = AreIds-perm (both_new cb.queue cb.offq d) (rw (e, wrap) (AreIds-cons v.ids));
}
  where
    wrap : (cb.dev_id + 1) % 2 ^ 32 ≡ cb.dev_id + 1
    wrap = omega arith
