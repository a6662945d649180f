-- ===== src/Network/RoundTrip.antt =====
-- The layouts of core_daemon/network.c: what a reply writes about a timer, a delay or a linkage, and
-- what a SET request with the same bytes would set.
use hsbsw.Prelude.{ℕ, ◌+◌, ◌*◌, ◌/◌, ◌%◌, ◌^◌, ◌<◌, ◌≡◌, refl, ap, some, arith}
use hsbsw.Device.Types.{Timer, Delay, Linkage}
use hsbsw.Codes.Cmd
use hsbsw.Network.Field.{Buf, get_u16, get_u32, zero_buf}
use hsbsw.Network.Reply.{reply_get_timer, reply_get_delay, reply_get_linkage}
use hsbsw.Network.Slots.{read_timer, read_delay, read_linkage}

pub word8 : (v : ℕ) → v < 2 ^ 8 → v % 256 ≡ v
word8 v h = omega arith

pub word16 : (v : ℕ) → v < 2 ^ 16 → v % 256 + 256 * (v / 256 % 256) ≡ v
word16 v h = omega arith

pub word32 :
    (v : ℕ)
    → v < 2 ^ 32
    → v % 256 + 256 * (v / 256 % 256) + 65536 * (v / 65536 % 256) + 16777216 * (v / 16777216 % 256)
      ≡ v
word32 v h = omega arith

-- A timer whose fields have values of their C types.
pub record FitsTimer (tm : Timer) : Type 0 where
  pub id : tm.id < 2 ^ 16
  pub work_mode : tm.work_mode < 2 ^ 8
  pub flag : tm.flag < 2 ^ 8
  pub hour : tm.hour < 2 ^ 8
  pub min : tm.min < 2 ^ 8
  pub sec : tm.sec < 2 ^ 8
  pub wday : tm.wday < 2 ^ 8
  pub act_id : tm.act_id < 2 ^ 16
  pub act_param1 : tm.act_param1 < 2 ^ 16
  pub act_param2 : tm.act_param2 < 2 ^ 32

-- For a device's id and a timer whose fields fit their widths: what the reply to GET_TIMER carries, read
-- by the layout of SET_TIMER, is the timer; the reply
-- has its command, its length and the device's id in its header. No access is out of the buffer.
pub read_timer-reply_get_timer :
    (dev_id : ℕ) (tm : Timer)
    → dev_id < 2 ^ 32
    → FitsTimer tm
    → (b : Buf) × (reply_get_timer dev_id tm (zero_buf 1024) ≡ some (b, 24))
      × (get_u16 b 0 ≡ some Cmd.get_timer_resp)
      × (get_u16 b 2 ≡ some 24)
      × (get_u32 b 4 ≡ some dev_id)
      × (read_timer b ≡ some tm)
unfolding reply_get_timer read_timer
read_timer-reply_get_timer dev_id tm h f = (
  _,
  refl,
  refl,
  refl,
  ap some (word32 dev_id h),
  λ i. some (record {
    id = word16 tm.id f.id i;
    work_mode = word8 tm.work_mode f.work_mode i;
    flag = word8 tm.flag f.flag i;
    hour = word8 tm.hour f.hour i;
    min = word8 tm.min f.min i;
    sec = word8 tm.sec f.sec i;
    wday = word8 tm.wday f.wday i;
    act_id = word16 tm.act_id f.act_id i;
    act_param1 = word16 tm.act_param1 f.act_param1 i;
    act_param2 = word32 tm.act_param2 f.act_param2 i;
  }),
)

-- A delay whose fields have values of their C types.
pub record FitsDelay (delay : Delay) : Type 0 where
  pub id : delay.id < 2 ^ 16
  pub work_mode : delay.work_mode < 2 ^ 8
  pub flag : delay.flag < 2 ^ 8
  pub evt_id : delay.evt_id < 2 ^ 16
  pub evt_param1 : delay.evt_param1 < 2 ^ 16
  pub evt_param2 : delay.evt_param2 < 2 ^ 32
  pub act_id : delay.act_id < 2 ^ 16
  pub act_param1 : delay.act_param1 < 2 ^ 16
  pub act_param2 : delay.act_param2 < 2 ^ 32
  pub delay_sec : delay.delay_sec < 2 ^ 32

-- For a device's id and a delay whose fields fit their widths: what the reply to GET_DELAY carries, read
-- by the layout of SET_DELAY, is the delay; the reply
-- has its command, its length and the device's id in its header. No access is out of the buffer.
pub read_delay-reply_get_delay :
    (dev_id : ℕ) (delay : Delay)
    → dev_id < 2 ^ 32
    → FitsDelay delay
    → (b : Buf) × (reply_get_delay dev_id delay (zero_buf 1024) ≡ some (b, 32))
      × (get_u16 b 0 ≡ some Cmd.get_delay_resp)
      × (get_u16 b 2 ≡ some 32)
      × (get_u32 b 4 ≡ some dev_id)
      × (read_delay b ≡ some delay)
unfolding reply_get_delay read_delay
read_delay-reply_get_delay dev_id delay h f = (
  _,
  refl,
  refl,
  refl,
  ap some (word32 dev_id h),
  λ i. some (record {
    id = word16 delay.id f.id i;
    work_mode = word8 delay.work_mode f.work_mode i;
    flag = word8 delay.flag f.flag i;
    evt_id = word16 delay.evt_id f.evt_id i;
    evt_param1 = word16 delay.evt_param1 f.evt_param1 i;
    evt_param2 = word32 delay.evt_param2 f.evt_param2 i;
    act_id = word16 delay.act_id f.act_id i;
    act_param1 = word16 delay.act_param1 f.act_param1 i;
    act_param2 = word32 delay.act_param2 f.act_param2 i;
    delay_sec = word32 delay.delay_sec f.delay_sec i;
  }),
)

-- A linkage whose fields have values of their C types.
pub record FitsLinkage (link : Linkage) : Type 0 where
  pub id : link.id < 2 ^ 16
  pub work_mode : link.work_mode < 2 ^ 8
  pub flag : link.flag < 2 ^ 8
  pub evt_id : link.evt_id < 2 ^ 16
  pub evt_param1 : link.evt_param1 < 2 ^ 16
  pub evt_param2 : link.evt_param2 < 2 ^ 32
  pub act_devid : link.act_devid < 2 ^ 32
  pub act_id : link.act_id < 2 ^ 16
  pub act_param1 : link.act_param1 < 2 ^ 16
  pub act_param2 : link.act_param2 < 2 ^ 32

-- For a device's id and a linkage whose fields fit their widths: what the reply to GET_LINKAGE carries, read
-- by the layout of SET_LINKAGE, is the linkage; the reply
-- has its command, its length and the device's id in its header. No access is out of the buffer.
pub read_linkage-reply_get_linkage :
    (dev_id : ℕ) (link : Linkage)
    → dev_id < 2 ^ 32
    → FitsLinkage link
    → (b : Buf) × (reply_get_linkage dev_id link (zero_buf 1024) ≡ some (b, 32))
      × (get_u16 b 0 ≡ some Cmd.get_linkage_resp)
      × (get_u16 b 2 ≡ some 32)
      × (get_u32 b 4 ≡ some dev_id)
      × (read_linkage b ≡ some link)
unfolding reply_get_linkage read_linkage
read_linkage-reply_get_linkage dev_id link h f = (
  _,
  refl,
  refl,
  refl,
  ap some (word32 dev_id h),
  λ i. some (record {
    id = word16 link.id f.id i;
    work_mode = word8 link.work_mode f.work_mode i;
    flag = word8 link.flag f.flag i;
    evt_id = word16 link.evt_id f.evt_id i;
    evt_param1 = word16 link.evt_param1 f.evt_param1 i;
    evt_param2 = word32 link.evt_param2 f.evt_param2 i;
    act_devid = word32 link.act_devid f.act_devid i;
    act_id = word16 link.act_id f.act_id i;
    act_param1 = word16 link.act_param1 f.act_param1 i;
    act_param2 = word32 link.act_param2 f.act_param2 i;
  }),
)
