-- ===== src/Remote/Laws.antt =====
-- What `remote_key_mapping` of core_daemon/remote_ctl.c makes of the keys.
use hsbsw.Prelude.{ℕ, ◌+◌, ◌*◌, ◌/◌, ◌≡◌, arith, ltb, ◌==◌, if◌then◌else◌}
use hsbsw.Codes.Error
use hsbsw.Codes.{act_type_remote_control}
use hsbsw.Device.Types.{Action}
use hsbsw.Remote.{remote_key_mapping}

-- The code of a key of the driver 0: the digits, OK and BACK.
abbrev pub key_code : ℕ → ℕ
key_code key = if ltb key 10 then 0x30 + key else if key == 10 then 0x43 else 0x42

-- For driver 0 the keys 0 to 11 are mapped, each to the code of its own in the low byte of the second
-- parameter, whose other bytes are those of the action given; all other keys are refused, and the
-- action is left as it is.
pub remote_key_mapping_cochip :
    (key : ℕ) (act : Action)
    → remote_key_mapping 0 key act ≡ (
        if ltb key 12
        then (
          Error.ok,
          record act {
            id = act_type_remote_control;
            param1 = 0;
            param2 = key_code key + 256 * (act.param2 / 256);
          },
        )
        else (Error.others, act))
unfolding remote_key_mapping
remote_key_mapping_cochip key act = ground arith
