-- ===== src/Device/Async.antt =====
-- The requests that core_daemon/device.c queues for its worker thread, and `thread_control_push_data`
-- of lib/thread_utils.c.
pub mod Control
use hsbsw.Prelude.{ℕ, [], ◌∷◌, ◌++◌, Option, if◌then◌else◌, replicate}
use hsbsw.Codes.Error
use hsbsw.Device.Types.{
  Action, Status, Act, ActBody, probe, set_status, get_status, do_action, AsyncCtl,
}

-- `thread_control_push_data`, where the locks are taken
unfoldable pub thread_control_push_data : AsyncCtl → Act → AsyncCtl
thread_control_push_data c act = record c { data_queue = c.data_queue ++ (act ∷ []) }

-- The common body of the `_async` functions: allocate, fill in, push.
unfoldable pub push_act : ActBody → Option ℕ → AsyncCtl → ℕ × AsyncCtl
unfolding thread_control_push_data
push_act body reply c =
    if c.mem
    then (Error.ok, thread_control_push_data c (record { body = body; reply = reply }))
    else (Error.no_memory, c)

unfoldable pub probe_dev_async : ℕ → Option ℕ → AsyncCtl → ℕ × AsyncCtl
unfolding push_act
probe_dev_async drvid = push_act (probe drvid)

unfoldable pub set_dev_status_async : Status → Option ℕ → AsyncCtl → ℕ × AsyncCtl
unfolding push_act
set_dev_status_async status = push_act (set_status status)

-- The rest of the status is zero from the allocation.
unfoldable pub get_dev_status_async : ℕ → Option ℕ → AsyncCtl → ℕ × AsyncCtl
unfolding push_act
get_dev_status_async devid =
    push_act
      (get_status (record { devid = devid; num = 0; id = replicate 8 0; val = replicate 8 0 }))

unfoldable pub set_dev_action_async : Action → Option ℕ → AsyncCtl → ℕ × AsyncCtl
unfolding push_act
set_dev_action_async action = push_act (do_action action)
