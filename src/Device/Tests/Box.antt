-- ===== src/Device/Tests/Box.antt =====
-- A box with two online devices and one that is offline, in the terms of core_daemon/device.c.
use mathlib.Core.List.{Nodup-nil, not-mem-nil}
use hsbsw.Prelude.{ℕ, refl, true, false, [], ◌∷◌, some, arith, replicate, All}
use hsbsw.Codes.EvtType
use hsbsw.Device.Types.{
  Timer, Delay, Linkage, Drv, Info, Dev, Client, World, zero_dev, zero_timer, zero_timer_status,
  zero_delay, zero_linkage, zero_delay_status, zero_linkage_status, virtual_switch_op,
  virtual_switch_drv_op,
}
use hsbsw.Device.Slots.{IsSized}
use hsbsw.Device.Find.{get_dev_id_list}
use hsbsw.Device.Check.{Now}
use hsbsw.Device.Check.Day.{NotStarted}
use hsbsw.Device.Check.Sized.{IsGood}
use hsbsw.Device.System.Ids.{AreIds, AreIds-cons}
use hsbsw.Device.System.Invariant.{IsValid}

abbrev pub drv : Drv
drv = record { name = "virtual switch"; id = 1; op = some virtual_switch_drv_op }

abbrev pub info : ℕ → Info
info n = record { cls = 1; interface = 2; mac = n ∷ 0 ∷ 0 ∷ 0 ∷ 0 ∷ 0 ∷ 0 ∷ 0 ∷ [] }

-- 8:30 on each day with `tm_wday` 1, with an action
abbrev pub morning : Timer
morning = record {
  id = 0;
  work_mode = 1;
  flag = 3;
  hour = 8;
  min = 30;
  sec = 0;
  wday = 2;
  act_id = 5;
  act_param1 = 6;
  act_param2 = 7;
}

-- On a sensor's event with parameter 4, a status of device 2.
abbrev pub on_sensor : Linkage
on_sensor = record {
  id = 3;
  work_mode = 1;
  flag = 0;
  evt_id = EvtType.sensor_triggered;
  evt_param1 = 4;
  evt_param2 = 0;
  act_devid = 2;
  act_id = 0;
  act_param1 = 1;
  act_param2 = 0;
}

abbrev pub a_delay : Delay
a_delay = record zero_delay { id = 2; work_mode = 1; delay_sec = 10 }

abbrev pub dev : ℕ → Dev
dev n = record zero_dev {
  id = n;
  work_mode = 15;
  info = info n;
  driver = some drv;
  op = some virtual_switch_op;
}

abbrev pub armed : Dev
armed = record (dev 3) {
  timer = morning ∷ replicate 31 zero_timer;
  timer_status = record { active = true; expired = false } ∷ replicate 31 zero_timer_status;
  link = on_sensor ∷ replicate 7 zero_linkage;
  link_status = record { active = true } ∷ replicate 7 zero_linkage_status;
}

abbrev pub client : Client
client = record { tcp_sockfd = 7; un_sockfd = 8; queue = []; using = true; notified = 0 }

abbrev pub box : World
box = record {
  cb = record {
    queue = armed ∷ dev 2 ∷ [];
    offq = dev 1 ∷ [];
    driverq = drv ∷ [];
    dev_id = 4;
    work_mode = 0;
    sec_today = 30600;
    async = record { data_queue = []; active = true; mem = true };
  };
  pool = client ∷ record client { using = false } ∷ [];
}

-- 8:30:02 on a Monday
abbrev pub monday : ℕ → Now
monday k = record { now = 1000; tm_hour = 8; tm_min = 30; tm_sec = 2; tm_wday = 1 }

pub zeros-NotStarted : All NotStarted (replicate 8 zero_delay_status)
zeros-NotStarted = ground arith

armed-IsGood : IsGood armed
armed-IsGood = record {
  sized = record {
    timer = refl;
    timer_status = refl;
    delay = refl;
    delay_status = refl;
    link = refl;
    link_status = refl;
  };
  idle = zeros-NotStarted;
  owned = ground arith;
}

dev-IsGood : (n : ℕ) → IsGood (dev n)
dev-IsGood n = record {
  sized = record {
    timer = refl;
    timer_status = refl;
    delay = refl;
    delay_status = refl;
    link = refl;
    link_status = refl;
  };
  idle = zeros-NotStarted;
  owned = ground arith;
}

pub box-IsSized : All IsSized box.cb.queue
box-IsSized = (armed-IsGood.sized, ((dev-IsGood 2).sized, tt))

no-AreIds : AreIds [] 1
no-AreIds = record { distinct = Nodup-nil; fresh = λ i m. absurd (not-mem-nil m) }

box-AreIds : AreIds (3 ∷ 2 ∷ 1 ∷ []) 4
box-AreIds = AreIds-cons (AreIds-cons (AreIds-cons no-AreIds))

pub box-IsValid : IsValid box.cb
unfolding get_dev_id_list
box-IsValid = record {
  online = (armed-IsGood, (dev-IsGood 2, tt));
  offline = (dev-IsGood 1, tt);
  ids = box-AreIds;
}
