-- ===== src/Network/Slots.antt =====
-- The requests of `deal_tcp_packet` of core_daemon/network.c that read and write the timers, delays
-- and linkages of a device.
use hsbsw.Prelude.{ℕ, Option, none, some}
use hsbsw.Device.Types.{Timer, Delay, Linkage, World}
use hsbsw.Device.Timers.{get_dev_timer, set_dev_timer, del_dev_timer}
use hsbsw.Device.Delays.{get_dev_delay, set_dev_delay, del_dev_delay}
use hsbsw.Device.Linkages.{get_dev_linkage, set_dev_linkage, del_dev_linkage}
use hsbsw.Network.Field.{Buf, ◌>>=◌, get_u8, get_u16, get_u32}
use hsbsw.Network.Reply.{reply_result, reply_get_timer, reply_get_delay, reply_get_linkage}
use hsbsw.Network.Request.{Answer, answer, reply_buf}

-- The reply to a request that only has a result.
unfoldable pub answer_result : ℕ × World → Option Answer
unfolding reply_result
answer_result (ret, w) = answer w (reply_result ret reply_buf)

-- The fields of HSB_CMD_SET_TIMER.
unfoldable pub read_timer : Buf → Option Timer
unfolding get_u8 get_u16 get_u32
read_timer buf = do
  timer_id ← get_u16 buf 8
  work_mode ← get_u8 buf 10
  flag ← get_u8 buf 11
  hour ← get_u8 buf 12
  min ← get_u8 buf 13
  sec ← get_u8 buf 14
  wday ← get_u8 buf 15
  act_id ← get_u16 buf 16
  act_param1 ← get_u16 buf 18
  act_param2 ← get_u32 buf 20
  some (record {
    id = timer_id;
    work_mode = work_mode;
    flag = flag;
    hour = hour;
    min = min;
    sec = sec;
    wday = wday;
    act_id = act_id;
    act_param1 = act_param1;
    act_param2 = act_param2;
  })

unfoldable pub deal_get_timer : Buf → World → Option Answer
unfolding get_u16 get_u32 get_dev_timer reply_result reply_get_timer
deal_get_timer buf w = do
  dev_id ← get_u32 buf 4
  timer_id ← get_u16 buf 8
  let (ret, o) = get_dev_timer dev_id timer_id w
  elim o [
    | none ↦ answer w (reply_result ret reply_buf)
    | some tm ↦ answer w (reply_get_timer dev_id tm reply_buf)
  ]

unfoldable pub deal_set_timer : Buf → World → Option Answer
unfolding get_u32 read_timer set_dev_timer answer_result
deal_set_timer buf w = do
  dev_id ← get_u32 buf 4
  tm ← read_timer buf
  answer_result (set_dev_timer dev_id tm w)

unfoldable pub deal_del_timer : Buf → World → Option Answer
unfolding get_u16 get_u32 del_dev_timer answer_result
deal_del_timer buf w = do
  dev_id ← get_u32 buf 4
  timer_id ← get_u16 buf 8
  answer_result (del_dev_timer dev_id timer_id w)

-- The fields of HSB_CMD_SET_DELAY.
unfoldable pub read_delay : Buf → Option Delay
unfolding get_u8 get_u16 get_u32
read_delay buf = do
  delay_id ← get_u16 buf 8
  work_mode ← get_u8 buf 10
  flag ← get_u8 buf 11
  evt_id ← get_u16 buf 12
  evt_param1 ← get_u16 buf 14
  evt_param2 ← get_u32 buf 16
  act_id ← get_u16 buf 20
  act_param1 ← get_u16 buf 22
  act_param2 ← get_u32 buf 24
  delay_sec ← get_u32 buf 28
  some (record {
    id = delay_id;
    work_mode = work_mode;
    flag = flag;
    evt_id = evt_id;
    evt_param1 = evt_param1;
    evt_param2 = evt_param2;
    act_id = act_id;
    act_param1 = act_param1;
    act_param2 = act_param2;
    delay_sec = delay_sec;
  })

unfoldable pub deal_get_delay : Buf → World → Option Answer
unfolding get_u16 get_u32 get_dev_delay reply_result reply_get_delay
deal_get_delay buf w = do
  dev_id ← get_u32 buf 4
  delay_id ← get_u16 buf 8
  let (ret, o) = get_dev_delay dev_id delay_id w
  elim o [
    | none ↦ answer w (reply_result ret reply_buf)
    | some delay ↦ answer w (reply_get_delay dev_id delay reply_buf)
  ]

unfoldable pub deal_set_delay : Buf → World → Option Answer
unfolding get_u32 read_delay set_dev_delay answer_result
deal_set_delay buf w = do
  dev_id ← get_u32 buf 4
  delay ← read_delay buf
  answer_result (set_dev_delay dev_id delay w)

unfoldable pub deal_del_delay : Buf → World → Option Answer
unfolding get_u16 get_u32 del_dev_delay answer_result
deal_del_delay buf w = do
  dev_id ← get_u32 buf 4
  delay_id ← get_u16 buf 8
  answer_result (del_dev_delay dev_id delay_id w)

-- The fields of HSB_CMD_SET_LINKAGE.
unfoldable pub read_linkage : Buf → Option Linkage
unfolding get_u8 get_u16 get_u32
read_linkage buf = do
  link_id ← get_u16 buf 8
  work_mode ← get_u8 buf 10
  flag ← get_u8 buf 11
  evt_id ← get_u16 buf 12
  evt_param1 ← get_u16 buf 14
  evt_param2 ← get_u32 buf 16
  act_devid ← get_u32 buf 20
  act_id ← get_u16 buf 24
  act_param1 ← get_u16 buf 26
  act_param2 ← get_u32 buf 28
  some (record {
    id = link_id;
    work_mode = work_mode;
    flag = flag;
    evt_id = evt_id;
    evt_param1 = evt_param1;
    evt_param2 = evt_param2;
    act_devid = act_devid;
    act_id = act_id;
    act_param1 = act_param1;
    act_param2 = act_param2;
  })

unfoldable pub deal_get_linkage : Buf → World → Option Answer
unfolding get_u16 get_u32 get_dev_linkage reply_result reply_get_linkage
deal_get_linkage buf w = do
  dev_id ← get_u32 buf 4
  link_id ← get_u16 buf 8
  let (ret, o) = get_dev_linkage dev_id link_id w
  elim o [
    | none ↦ answer w (reply_result ret reply_buf)
    | some link ↦ answer w (reply_get_linkage dev_id link reply_buf)
  ]

unfoldable pub deal_set_linkage : Buf → World → Option Answer
unfolding get_u32 read_linkage set_dev_linkage answer_result
deal_set_linkage buf w = do
  dev_id ← get_u32 buf 4
  link ← read_linkage buf
  answer_result (set_dev_linkage dev_id link w)

unfoldable pub deal_del_linkage : Buf → World → Option Answer
unfolding get_u16 get_u32 del_dev_linkage answer_result
deal_del_linkage buf w = do
  dev_id ← get_u32 buf 4
  link_id ← get_u16 buf 8
  answer_result (del_dev_linkage dev_id link_id w)
