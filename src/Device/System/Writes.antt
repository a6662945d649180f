-- ===== src/Device/System/Writes.antt =====
-- The invariant under the operations of core_daemon/device.c on timers, delays and linkages.
use hsbsw.Prelude.{ℕ, zero, suc, ◌≡◌, refl, List, [], ◌∷◌, All, arith, get_or, set}
use hsbsw.Device.Types.{Timer, Delay, DelayStatus, Linkage, Dev, World, zero_delay_status}
use hsbsw.Device.Timers.{set_dev_timer, del_dev_timer, write_timer, put_timer, clear_timer}
use hsbsw.Device.Timers.Laws.{put_timer-IsSized, clear_timer-IsSized}
use hsbsw.Device.Delays.{set_dev_delay, del_dev_delay, write_delay, put_delay, clear_delay}
use hsbsw.Device.Delays.Laws.{put_delay-IsSized, clear_delay-IsSized}
use hsbsw.Device.Linkages.{
  set_dev_linkage, del_dev_linkage, write_linkage, put_linkage, clear_linkage,
}
use hsbsw.Device.Linkages.Laws.{put_linkage-IsSized, clear_linkage-IsSized}
use hsbsw.Device.Check.Day.{NotStarted}
use hsbsw.Device.Check.Sized.{IsGood}
use hsbsw.Device.System.Invariant.{IsValid, write-IsValid}

NotStarted-set :
    (sts : List DelayStatus) (i : ℕ) (st : DelayStatus)
    → All NotStarted sts
    → NotStarted st
    → All NotStarted (set sts i st)
NotStarted-set [] i st h k = tt
NotStarted-set (x ∷ sts) zero st h k = (k, h.1)
NotStarted-set (x ∷ sts) (suc i) st h k = (h.0, NotStarted-set sts i st h.1 k)

NotStarted-get :
    (sts : List DelayStatus) (i : ℕ)
    → All NotStarted sts
    → (get_or sts i zero_delay_status).started ≡ zero_delay_status.started
NotStarted-get [] i h = refl
NotStarted-get (x ∷ sts) zero h = h.0
NotStarted-get (x ∷ sts) (suc i) h = NotStarted-get sts i h.1

put_timer-IsGood : (timer : Timer) (dev : Dev) → IsGood dev → IsGood (put_timer timer dev)
unfolding put_timer
put_timer-IsGood timer dev g = record {
  sized = put_timer-IsSized timer dev g.sized;
  idle = g.idle;
  owned = g.owned;
}

clear_timer-IsGood : (i : ℕ) (dev : Dev) → IsGood dev → IsGood (clear_timer i dev)
unfolding clear_timer
clear_timer-IsGood i dev g = record {
  sized = clear_timer-IsSized i dev g.sized;
  idle = g.idle;
  owned = g.owned;
}

set_dev_timer_cases :
    (P : World → Type 0) (dev_id : ℕ) (timer : Timer) (w : World)
    → P w
    → P (write_timer dev_id (put_timer timer) w)
    → P (set_dev_timer dev_id timer w).1
unfolding set_dev_timer
set_dev_timer_cases P dev_id timer w same written = ground arith

del_dev_timer_cases :
    (P : World → Type 0) (dev_id i : ℕ) (w : World)
    → P w
    → P (write_timer dev_id (clear_timer i) w)
    → P (del_dev_timer dev_id i w).1
unfolding del_dev_timer
del_dev_timer_cases P dev_id i w same written = ground arith

pub set_dev_timer-IsValid :
    (dev_id : ℕ) (timer : Timer) (w : World)
    → IsValid w.cb
    → IsValid (set_dev_timer dev_id timer w).1.cb
unfolding write_timer put_timer
set_dev_timer-IsValid dev_id timer w h =
    set_dev_timer_cases (λ u. IsValid u.cb) dev_id timer w h
      (write-IsValid dev_id (put_timer timer) w.cb (λ d. refl) (put_timer-IsGood timer) h)

pub del_dev_timer-IsValid :
    (dev_id i : ℕ) (w : World) → IsValid w.cb → IsValid (del_dev_timer dev_id i w).1.cb
unfolding write_timer clear_timer
del_dev_timer-IsValid dev_id i w h =
    del_dev_timer_cases (λ u. IsValid u.cb) dev_id i w h
      (write-IsValid dev_id (clear_timer i) w.cb (λ d. refl) (clear_timer-IsGood i) h)

put_delay-IsGood : (delay : Delay) (dev : Dev) → IsGood dev → IsGood (put_delay delay dev)
unfolding put_delay
put_delay-IsGood delay dev g = record {
  sized = put_delay-IsSized delay dev g.sized;
  idle =
      NotStarted-set dev.delay_status delay.id _ g.idle
        (NotStarted-get dev.delay_status delay.id g.idle);
  owned = g.owned;
}

clear_delay-IsGood : (i : ℕ) (dev : Dev) → IsGood dev → IsGood (clear_delay i dev)
unfolding clear_delay
clear_delay-IsGood i dev g = record {
  sized = clear_delay-IsSized i dev g.sized;
  idle = NotStarted-set dev.delay_status i _ g.idle (NotStarted-get dev.delay_status i g.idle);
  owned = g.owned;
}

set_dev_delay_cases :
    (P : World → Type 0) (dev_id : ℕ) (delay : Delay) (w : World)
    → P w
    → P (write_delay dev_id (put_delay delay) w)
    → P (set_dev_delay dev_id delay w).1
unfolding set_dev_delay
set_dev_delay_cases P dev_id delay w same written = ground arith

del_dev_delay_cases :
    (P : World → Type 0) (dev_id i : ℕ) (w : World)
    → P w
    → P (write_delay dev_id (clear_delay i) w)
    → P (del_dev_delay dev_id i w).1
unfolding del_dev_delay
del_dev_delay_cases P dev_id i w same written = ground arith

pub set_dev_delay-IsValid :
    (dev_id : ℕ) (delay : Delay) (w : World)
    → IsValid w.cb
    → IsValid (set_dev_delay dev_id delay w).1.cb
unfolding write_delay put_delay
set_dev_delay-IsValid dev_id delay w h =
    set_dev_delay_cases (λ u. IsValid u.cb) dev_id delay w h
      (write-IsValid dev_id (put_delay delay) w.cb (λ d. refl) (put_delay-IsGood delay) h)

pub del_dev_delay-IsValid :
    (dev_id i : ℕ) (w : World) → IsValid w.cb → IsValid (del_dev_delay dev_id i w).1.cb
unfolding write_delay clear_delay
del_dev_delay-IsValid dev_id i w h =
    del_dev_delay_cases (λ u. IsValid u.cb) dev_id i w h
      (write-IsValid dev_id (clear_delay i) w.cb (λ d. refl) (clear_delay-IsGood i) h)

put_linkage-IsGood : (link : Linkage) (dev : Dev) → IsGood dev → IsGood (put_linkage link dev)
unfolding put_linkage
put_linkage-IsGood link dev g = record {
  sized = put_linkage-IsSized link dev g.sized;
  idle = g.idle;
  owned = g.owned;
}

clear_linkage-IsGood : (i : ℕ) (dev : Dev) → IsGood dev → IsGood (clear_linkage i dev)
unfolding clear_linkage
clear_linkage-IsGood i dev g = record {
  sized = clear_linkage-IsSized i dev g.sized;
  idle = g.idle;
  owned = g.owned;
}

set_dev_linkage_cases :
    (P : World → Type 0) (dev_id : ℕ) (link : Linkage) (w : World)
    → P w
    → P (write_linkage dev_id (put_linkage link) w)
    → P (set_dev_linkage dev_id link w).1
unfolding set_dev_linkage
set_dev_linkage_cases P dev_id link w same written = ground arith

del_dev_linkage_cases :
    (P : World → Type 0) (dev_id i : ℕ) (w : World)
    → P w
    → P (write_linkage dev_id (clear_linkage i) w)
    → P (del_dev_linkage dev_id i w).1
unfolding del_dev_linkage
del_dev_linkage_cases P dev_id i w same written = ground arith

pub set_dev_linkage-IsValid :
    (dev_id : ℕ) (link : Linkage) (w : World)
    → IsValid w.cb
    → IsValid (set_dev_linkage dev_id link w).1.cb
unfolding write_linkage put_linkage
set_dev_linkage-IsValid dev_id link w h =
    set_dev_linkage_cases (λ u. IsValid u.cb) dev_id link w h
      (write-IsValid dev_id (put_linkage link) w.cb (λ d. refl) (put_linkage-IsGood link) h)

pub del_dev_linkage-IsValid :
    (dev_id i : ℕ) (w : World) → IsValid w.cb → IsValid (del_dev_linkage dev_id i w).1.cb
unfolding write_linkage clear_linkage
del_dev_linkage-IsValid dev_id i w h =
    del_dev_linkage_cases (λ u. IsValid u.cb) dev_id i w h
      (write-IsValid dev_id (clear_linkage i) w.cb (λ d. refl) (clear_linkage-IsGood i) h)
