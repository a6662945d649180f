-- ===== src/Device/Types.antt =====
-- The data of core_daemon/device.h and the state of core_daemon/device.c. Machine integers are
-- numbers; what wraps is written out where it is computed. The contents of a GQueue is a list,
-- head first; a device object is held by value in the one queue that links to it.
use Prim.Native.String.{String}
use hsbsw.Prelude.{ℕ, Bool, false, List, Option, none, replicate}

pub record Action : Type 0 where
  pub devid : ℕ
  pub id : ℕ
  pub param1 : ℕ
  pub param2 : ℕ

pub record Evt : Type 0 where
  pub devid : ℕ
  pub id : ℕ
  pub param1 : ℕ
  pub param2 : ℕ

-- The arrays hold the entries that have been given a value, in order, at most eight.
pub record Status : Type 0 where
  pub devid : ℕ
  pub num : ℕ
  pub id : List ℕ
  pub val : List ℕ

-- The type and the union of HSB_ACT_T.
pub data ActBody : Type 0 where
  probe : ℕ → ActBody
  set_status get_status : Status → ActBody
  do_action : Action → ActBody

-- `reply` is NULL, or the client context to answer, by its index in the pool.
pub record Act : Type 0 where
  pub body : ActBody
  pub reply : Option ℕ

-- The type and the union of HSB_RESP_T.
pub data RespBody : Type 0 where
  result : ℕ → RespBody
  event : Evt → RespBody
  status : Status → RespBody

pub record Resp : Type 0 where
  pub body : RespBody
  pub reply : Option ℕ

pub record Timer : Type 0 where
  pub id : ℕ
  pub work_mode : ℕ
  pub flag : ℕ
  pub hour : ℕ
  pub min : ℕ
  pub sec : ℕ
  pub wday : ℕ
  pub act_id : ℕ
  pub act_param1 : ℕ
  pub act_param2 : ℕ

pub record TimerStatus : Type 0 where
  pub active : Bool
  pub expired : Bool

pub record Delay : Type 0 where
  pub id : ℕ
  pub work_mode : ℕ
  pub flag : ℕ
  pub evt_id : ℕ
  pub evt_param1 : ℕ
  pub evt_param2 : ℕ
  pub act_id : ℕ
  pub act_param1 : ℕ
  pub act_param2 : ℕ
  pub delay_sec : ℕ

pub record DelayStatus : Type 0 where
  pub active : Bool
  pub started : Bool
  pub start_tm : ℕ

pub record Linkage : Type 0 where
  pub id : ℕ
  pub work_mode : ℕ
  pub flag : ℕ
  pub evt_id : ℕ
  pub evt_param1 : ℕ
  pub evt_param2 : ℕ
  pub act_devid : ℕ
  pub act_id : ℕ
  pub act_param1 : ℕ
  pub act_param2 : ℕ

pub record LinkageStatus : Type 0 where
  pub active : Bool

abbrev pub max_timer_num : ℕ
max_timer_num = 32

abbrev pub max_delay_num : ℕ
max_delay_num = 8

abbrev pub max_linkage_num : ℕ
max_linkage_num = 8

-- What `memset(p, 0, sizeof *p)` leaves.
abbrev pub zero_timer : Timer
zero_timer = record {
  id = 0;
  work_mode = 0;
  flag = 0;
  hour = 0;
  min = 0;
  sec = 0;
  wday = 0;
  act_id = 0;
  act_param1 = 0;
  act_param2 = 0;
}

abbrev pub zero_timer_status : TimerStatus
zero_timer_status = record { active = false; expired = false }

abbrev pub zero_delay : Delay
zero_delay = record {
  id = 0;
  work_mode = 0;
  flag = 0;
  evt_id = 0;
  evt_param1 = 0;
  evt_param2 = 0;
  act_id = 0;
  act_param1 = 0;
  act_param2 = 0;
  delay_sec = 0;
}

abbrev pub zero_delay_status : DelayStatus
zero_delay_status = record { active = false; started = false; start_tm = 0 }

abbrev pub zero_linkage : Linkage
zero_linkage = record {
  id = 0;
  work_mode = 0;
  flag = 0;
  evt_id = 0;
  evt_param1 = 0;
  evt_param2 = 0;
  act_devid = 0;
  act_id = 0;
  act_param1 = 0;
  act_param2 = 0;
}

abbrev pub zero_linkage_status : LinkageStatus
zero_linkage_status = record { active = false }

-- The operation tables of the two drivers, to which `HSB_DEV_T.op` and `HSB_DEV_DRV_T.op` point.
pub data OpTable : Type 0 where
  virtual_switch_op sample_op : OpTable

pub data DrvOpTable : Type 0 where
  virtual_switch_drv_op cz_drv_op : DrvOpTable

pub record Drv : Type 0 where
  pub name : String
  pub id : ℕ
  pub op : Option DrvOpTable

pub record Info : Type 0 where
  pub cls : ℕ
  pub interface : ℕ
  pub mac : List ℕ

pub record Dev : Type 0 where
  pub id : ℕ
  pub status : ℕ
  pub info : Info
  pub work_mode : ℕ
  pub timer : List Timer
  pub timer_status : List TimerStatus
  pub delay : List Delay
  pub delay_status : List DelayStatus
  pub link : List Linkage
  pub link_status : List LinkageStatus
  pub ip : ℕ
  pub idle_time : ℕ
  pub driver : Option Drv
  pub op : Option OpTable

-- `g_slice_new0(HSB_DEV_T)`
abbrev pub zero_dev : Dev
zero_dev = record {
  id = 0;
  status = 0;
  info = record { cls = 0; interface = 0; mac = replicate 8 0 };
  work_mode = 0;
  timer = replicate max_timer_num zero_timer;
  timer_status = replicate max_timer_num zero_timer_status;
  delay = replicate max_delay_num zero_delay;
  delay_status = replicate max_delay_num zero_delay_status;
  link = replicate max_linkage_num zero_linkage;
  link_status = replicate max_linkage_num zero_linkage_status;
  ip = 0;
  idle_time = 0;
  driver = none;
  op = none;
}

-- The part of `thread_data_control` of include/thread_utils.h that carries data, with `mem`: whether
-- the allocator hands out memory, which is the environment's to say.
pub record AsyncCtl : Type 0 where
  pub data_queue : List Act
  pub active : Bool
  pub mem : Bool

-- HSB_DEVICE_CB_T
pub record DeviceCb : Type 0 where
  pub queue : List Dev
  pub offq : List Dev
  pub driverq : List Drv
  pub dev_id : ℕ
  pub work_mode : ℕ
  pub sec_today : ℕ
  pub async : AsyncCtl

-- `tcp_client_context` of core_daemon/network.c; `notified` counts the datagrams that have been sent
-- to the context's listen path.
pub record Client : Type 0 where
  pub tcp_sockfd : ℕ
  pub un_sockfd : ℕ
  pub queue : List Resp
  pub using : Bool
  pub notified : ℕ

-- The two globals, `gl_dev_cb` and `client_pool.context`.
pub record World : Type 0 where
  pub cb : DeviceCb
  pub pool : List Client
