-- ===== src/SmartConfig/Tests.antt =====
-- A network `ab` with the password `xyz`.
use hsbsw.Prelude.{ℕ, ◌≡◌, ◌*◌, ◌+◌, refl, true, [], ◌∷◌, List, arith, replicate, length-replicate}
use hsbsw.SmartConfig.{crc8, make_code, Codes}
use hsbsw.SmartConfig.Crc.{serial, crc8-serial}
use hsbsw.SmartConfig.Carries.{Carries}
use hsbsw.SmartConfig.Packet.{make_code-Carries}
use hsbsw.SmartConfig.Send.{send_all}
use hsbsw.SmartConfig.Sent.{SendsCodes, send_all-SendsCodes}

abbrev ssid : List ℕ
ssid = b'a' ∷ b'b' ∷ []

abbrev pwd : List ℕ
pwd = b'x' ∷ 0xe9 ∷ b'z' ∷ []

abbrev ip : List ℕ
ip = 192 ∷ 168 ∷ 1 ∷ 120 ∷ []

abbrev bssid : List ℕ
bssid = 0x18 ∷ 0xfe ∷ 0x34 ∷ 0x01 ∷ 0x02 ∷ 0x03 ∷ []

abbrev empty : List ℕ
empty = replicate 1024 0

make_code-Carries_example :
    Carries (make_code true ssid pwd ip bssid empty).data_code ssid pwd ip bssid
    × ((make_code true ssid pwd ip bssid empty).dc_len ≡ 36)
make_code-Carries_example =
    make_code-Carries true ssid pwd ip bssid empty (omega arith) refl refl
      (length-replicate {A = ℕ} 1024 0) (omega arith)

crc8-serial_example : crc8 bssid 1 4 ≡ serial (0xfe ∷ 0x34 ∷ 0x01 ∷ 0x02 ∷ []) 0
crc8-serial_example = crc8-serial bssid 1 4 (omega arith)

abbrev codes : Codes
codes = record { data_code = empty; dc_len = 36 }

send_all-SendsCodes_example : SendsCodes codes (send_all (λ n. 7000 + 10 * n) (λ n. true) 500 codes)
send_all-SendsCodes_example =
    send_all-SendsCodes codes 12 refl (omega arith) (λ n. 7000 + 10 * n) (λ n. true) 500
