-- ===== src/Rn2483/App.antt =====
-- The application that tries the driver, zephyr-rn2483-poc/app/src/main.c.
pub mod Sent
pub mod Late
use winegrid_internship.Base.{
  ℕ, zero, suc, ◌+◌, List, [], ◌∷◌, Option, none, some, Status, Bytes, pos,
}
use winegrid_internship.Rn2483.{Device}
use winegrid_internship.Rn2483.Command.{ModemConfig, bw_125_khz, config, send}

-- `config` and `payload` of `main`.
abbrev pub app_config : ModemConfig
app_config = record {
  frequency = 868100000;
  bandwidth = bw_125_khz;
  datarate = 7;
  tx_power = pos 14;
}

abbrev pub app_payload : Bytes
app_payload = 0x01 ∷ 0x02 ∷ 0x03 ∷ 0x04 ∷ []

-- `k_sleep(K_SECONDS(10))`. What the module sends in the meantime is found by later polls.
unfoldable pub sleep_10_s : Device → Device
sleep_10_s d = record d { uptime = d.uptime + 10000 }

-- So many turns of the loop of `main`, with what `lora_send` returned in each. `none`: the given
-- polls ended within a call.
unfoldable pub send_rounds : ℕ → Device → Option (Device × List Status)
unfolding sleep_10_s
send_rounds zero d = some (d, [])
send_rounds (suc n) d = elim (send app_payload d) [
  | none ↦ none
  | some (d', e) ↦ elim (send_rounds n (sleep_10_s d')) [
    | none ↦ none
    | some (d'', errs) ↦ some (d'', e ∷ errs)
  ]
]

-- `main`, until so many turns of its loop are over. It prints whether the device is ready and
-- whether the configuration failed, and goes on in either case.
unfoldable pub main : ℕ → Device → Option (Device × List Status)
main rounds d = elim (config app_config d) [ none ↦ none | some (d', e) ↦ send_rounds rounds d' ]
