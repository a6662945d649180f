-- ===== src/Remote/Tests.antt =====
-- A key that is pressed.
use hsbsw.Prelude.{◌≡◌}
use hsbsw.Codes.Error
use hsbsw.Codes.{act_type_remote_control}
use hsbsw.Device.Types.{Action}
use hsbsw.Remote.{remote_key_mapping}
use hsbsw.Remote.Laws.{remote_key_mapping_cochip}

abbrev pressed : Action
pressed = record { devid = 2; id = 0; param1 = 9; param2 = 0x1234 }

remote_key_mapping_cochip_example :
    remote_key_mapping 0 10 pressed
    ≡ (Error.ok, record pressed { id = act_type_remote_control; param1 = 0; param2 = 0x1243 })
remote_key_mapping_cochip_example = remote_key_mapping_cochip 10 pressed
