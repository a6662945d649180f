-- ===== src/Device/Process/Answers.antt =====
-- Who is answered when the worker thread of core_daemon/device.c has dealt with a request.
use mathlib.Core.Option
use hsbsw.Prelude.{
  ℕ, ◌≡◌, refl, arith, false, Option, none, some, ◌&&◌, ◌==◌, if◌then◌else◌, get_elem?,
  Option-cases, inl, inr,
}
use hsbsw.Codes.Error
use hsbsw.Device.Types.{
  Act, ActBody, probe, set_status, get_status, do_action, RespBody, result, status, Client, World,
}
use hsbsw.Device.Event.{is_reply_of, is_event, deliver, notify_resp}
use hsbsw.Device.Event.Laws.{concerns-is_reply_of, notify_resp-get_elem?}
use hsbsw.Device.Process.{
  Drivers, probe_dev, set_dev_status, get_dev_status, set_dev_action, reply_result, status_answer,
  process_body, process_dev_act,
}

module _ (drivers : Drivers) where
  -- What a request comes to, before anybody is told: the answer, and the state.
  unfoldable pub outcome : ActBody → World → RespBody × World
  outcome (probe drvid) w = let (ret, w') = probe_dev drivers drvid w in (result ret, w')
  outcome (set_status st) w = let (ret, w') = set_dev_status drivers st w in (result ret, w')
  outcome (get_status st) w =
      let (ret, st') = get_dev_status drivers st w in
      (if ret == Error.ok then status st' else result ret, w)
  outcome (do_action act) w = (result (set_dev_action drivers act w), w)

  told :
      (body : RespBody) (reply : Option ℕ) (w : World) (i : ℕ)
      → is_event body ≡ false
      → get_elem? (notify_resp (record { body = body; reply = reply }) w).pool i
        ≡ Option.map
            (λ (c : Client).
              if (c.using && is_reply_of reply i) && w.cb.async.mem
              then deliver (record { body = body; reply = reply }) c
              else c)
            (get_elem? w.pool i)
  told body reply w i e =
      rw (concerns-is_reply_of body reply i e) at
        (notify_resp-get_elem? (record { body = body; reply = reply }) w i)

  told_result :
      (ret : ℕ) (reply : Option ℕ) (w : World) (i : ℕ)
      → get_elem? (reply_result drivers reply ret w).pool i
        ≡ Option.map
            (λ (c : Client).
              if (c.using && is_reply_of reply i) && w.cb.async.mem
              then deliver (record { body = result ret; reply = reply }) c
              else c)
            (get_elem? w.pool i)
  unfolding reply_result
  told_result ret (some r) w i = told (result ret) (some r) w i refl
  told_result ret none w i = elim (Option-cases (get_elem? w.pool i)) [
    | inl e ↦ ground (arith, e)
    | inr (c, e) ↦ ground (arith, e)
  ]

  process_body-answers :
      (b : ActBody) (reply : Option ℕ) (w : World) (i : ℕ)
      → let (body, w') = outcome b w in
        get_elem? (process_body drivers b reply w).pool i
        ≡ Option.map
            (λ (c : Client).
              if (c.using && is_reply_of reply i) && w'.cb.async.mem
              then deliver (record { body = body; reply = reply }) c
              else c)
            (get_elem? w'.pool i)
  unfolding process_body status_answer outcome
  process_body-answers (probe drvid) reply w i =
      told_result (probe_dev drivers drvid w).0 reply (probe_dev drivers drvid w).1 i
  process_body-answers (set_status st) reply w i =
      told_result (set_dev_status drivers st w).0 reply (set_dev_status drivers st w).1 i
  process_body-answers (get_status st) reply w i =
      let r = get_dev_status drivers st w in
      told (if r.0 == Error.ok then status r.1 else result r.0) reply w i (ground arith)
  process_body-answers (do_action act) reply w i =
      told_result (set_dev_action drivers act w) reply w i

  -- The context that asked, if it is still in use and there is memory for the response, gets the
  -- outcome of the request, once; no other context gets anything but what the request itself has
  -- made the driver or the box tell it.
  pub process_dev_act-answers :
      (act : Act) (w : World) (i : ℕ)
      → let (body, w') = outcome act.body w in
        get_elem? (process_dev_act drivers act w).pool i
        ≡ Option.map
            (λ (c : Client).
              if (c.using && is_reply_of act.reply i) && w'.cb.async.mem
              then deliver (record { body = body; reply = act.reply }) c
              else c)
            (get_elem? w'.pool i)
  unfolding process_dev_act outcome
  process_dev_act-answers act w i = process_body-answers act.body act.reply w i
