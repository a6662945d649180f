-- ===== src/Sim/Pad/Shown/Tables.antt =====
-- The timers, delays and linkages that core_daemon/network.c answers, as misc/pad_sim.c shows them.
use hsbsw.Prelude.{ℕ, ◌^◌, ◌<◌, ◌≡◌, refl, some}
use hsbsw.Device.Types.{Timer, Delay, Linkage}
use hsbsw.Network.Field.{Buf, zero_buf}
use hsbsw.Network.Reply.{reply_get_timer, reply_get_delay, reply_get_linkage}
use hsbsw.Network.RoundTrip.{word8, word16, word32, FitsTimer, FitsDelay, FitsLinkage}
use hsbsw.Sim.Laws.{arrived}
use hsbsw.Sim.Pad.Shown.{dev_timer, dev_delay, dev_linkage, deal_tcp_pkt}

module _ (stack : ℕ → ℕ) where
  pub timer-shown :
      (dev_id : ℕ) (tm : Timer)
      → dev_id < 2 ^ 32
      → FitsTimer tm
      → (b : Buf) × (reply_get_timer dev_id tm (zero_buf 1024) ≡ some (b, 24))
        × (deal_tcp_pkt (arrived stack 1024 b 24) ≡ some (dev_timer dev_id tm))
  unfolding reply_get_timer deal_tcp_pkt
  timer-shown dev_id tm h f = (
    _,
    refl,
    λ i. some (
        dev_timer (word32 dev_id h i) (record {
          id = word16 tm.id f.id i;
          work_mode = word8 tm.work_mode f.work_mode i;
          flag = word8 tm.flag f.flag i;
          hour = word8 tm.hour f.hour i;
          min = word8 tm.min f.min i;
          sec = word8 tm.sec f.sec i;
          wday = word8 tm.wday f.wday i;
          act_id = word16 tm.act_id f.act_id i;
          act_param1 = word16 tm.act_param1 f.act_param1 i;
          act_param2 = word32 tm.act_param2 f.act_param2 i;
        })),
  )

  pub delay-shown :
      (dev_id : ℕ) (delay : Delay)
      → dev_id < 2 ^ 32
      → FitsDelay delay
      → (b : Buf) × (reply_get_delay dev_id delay (zero_buf 1024) ≡ some (b, 32))
        × (deal_tcp_pkt (arrived stack 1024 b 32) ≡ some (dev_delay dev_id delay))
  unfolding reply_get_delay deal_tcp_pkt
  delay-shown dev_id delay h f = (
    _,
    refl,
    λ i. some (
        dev_delay (word32 dev_id h i) (record {
          id = word16 delay.id f.id i;
          work_mode = word8 delay.work_mode f.work_mode i;
          flag = word8 delay.flag f.flag i;
          evt_id = word16 delay.evt_id f.evt_id i;
          evt_param1 = word16 delay.evt_param1 f.evt_param1 i;
          evt_param2 = word32 delay.evt_param2 f.evt_param2 i;
          act_id = word16 delay.act_id f.act_id i;
          act_param1 = word16 delay.act_param1 f.act_param1 i;
          act_param2 = word32 delay.act_param2 f.act_param2 i;
          delay_sec = word32 delay.delay_sec f.delay_sec i;
        })),
  )

  pub linkage-shown :
      (dev_id : ℕ) (link : Linkage)
      → dev_id < 2 ^ 32
      → FitsLinkage link
      → (b : Buf) × (reply_get_linkage dev_id link (zero_buf 1024) ≡ some (b, 32))
        × (deal_tcp_pkt (arrived stack 1024 b 32) ≡ some (dev_linkage dev_id link))
  unfolding reply_get_linkage deal_tcp_pkt
  linkage-shown dev_id link h f = (
    _,
    refl,
    λ i. some (
        dev_linkage (word32 dev_id h i) (record {
          id = word16 link.id f.id i;
          work_mode = word8 link.work_mode f.work_mode i;
          flag = word8 link.flag f.flag i;
          evt_id = word16 link.evt_id f.evt_id i;
          evt_param1 = word16 link.evt_param1 f.evt_param1 i;
          evt_param2 = word32 link.evt_param2 f.evt_param2 i;
          act_devid = word32 link.act_devid f.act_devid i;
          act_id = word16 link.act_id f.act_id i;
          act_param1 = word16 link.act_param1 f.act_param1 i;
          act_param2 = word32 link.act_param2 f.act_param2 i;
        })),
  )
