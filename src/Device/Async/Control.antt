-- ===== src/Device/Async/Control.antt =====
-- The other functions of lib/thread_utils.c. A flag says whether a pthread call succeeds; the lock, the
-- unlock and the wake-up of one call follow each other in its flags.
use hsbsw.Prelude.{◌≡◌, refl, Bool, true, false, [], ◌∷◌, ◌&&◌, if◌then◌else◌}
use hsbsw.Device.Types.{Act, AsyncCtl}
use hsbsw.Device.Async.{thread_control_push_data}

unfoldable pub thread_control_init : Bool → Bool → AsyncCtl → Bool × AsyncCtl
thread_control_init mutex_made cond_made c =
    if mutex_made && cond_made
    then (true, record c { data_queue = []; active = false })
    else (false, c)

unfoldable pub thread_control_destroy : Bool → Bool → AsyncCtl → Bool × AsyncCtl
thread_control_destroy mutex_gone cond_gone c =
    if mutex_gone && cond_gone
    then (true, record c { data_queue = []; active = false })
    else (false, c)

-- A lock that fails leaves everything as it is; a failure behind it is only reported.
unfoldable pub thread_control_activate : Bool → Bool → Bool → AsyncCtl → Bool × AsyncCtl
thread_control_activate locked unlocked woken c =
    if locked then (unlocked && woken, record c { active = true }) else (false, c)

unfoldable pub thread_control_deactivate : Bool → AsyncCtl → Bool × AsyncCtl
thread_control_deactivate locked c =
    if locked then (true, record c { active = false }) else (false, c)

-- `thread_control_push_data` with its result, for data that are not NULL.
unfoldable pub push_data : Bool → Bool → Bool → AsyncCtl → Act → Bool × AsyncCtl
push_data locked unlocked woken c act =
    if locked then (unlocked && woken, thread_control_push_data c act) else (false, c)

unfoldable pub push_data_head : Bool → Bool → Bool → AsyncCtl → Act → Bool × AsyncCtl
push_data_head locked unlocked woken c act =
    if locked then (unlocked && woken, record c { data_queue = act ∷ c.data_queue }) else (false, c)

-- A control that is initialised and activated works on what is pushed in the order of the queue: what is
-- pushed to the head comes before, what is pushed to the tail behind.
started_order :
    (c : AsyncCtl) (first second : Act)
    → let made = (thread_control_init true true c).1 in
      let ready = (thread_control_activate true true true made).1 in
      let one = (push_data true true true ready second).1 in
      let two = (push_data_head true true true one first).1 in
      two ≡ record { data_queue = first ∷ second ∷ []; active = true; mem = c.mem }
unfolding thread_control_init thread_control_activate push_data push_data_head
    thread_control_push_data
started_order c first second = refl
