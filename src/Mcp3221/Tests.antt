-- ===== src/Mcp3221/Tests.antt =====
-- Witnesses and tests of the two drivers.
use winegrid_internship.Base.{
  ℕ, ◌⊎◌, ◌^◌, ◌+◌, ◌*◌, ◌≤◌, ◌<◌, ◌≡◌, refl, arith, ok, true, none, List, [], ◌∷◌, Result,
}
use winegrid_internship.Mcp3221.{BusRead, bus_error, received, raw12}
use winegrid_internship.Mcp3221.Zephyr.{Config, Data, SensorValue, chan_voltage, channel_get}
use winegrid_internship.Mcp3221.Zephyr.Voltage.{true_microvolts, channel_get_lem}
use winegrid_internship.Mcp3221.Idf.{System, Answers}
use winegrid_internship.Mcp3221.Zephyr.App.{main}
use winegrid_internship.Mcp3221.Idf.App.{logs, app_main}
use winegrid_internship.Mcp3221.AppsAgree.{SameTurns, apps_agree}

-- The reference voltage that the devicetree binding gives by default.
abbrev default_config : Config
default_config = record { vref_mv = 3300 }

abbrev full_scale : Data
full_scale = record { raw = 4095 }

-- 4095 steps of 3300 mV are 3.299194 V; the driver reports 0.153466 V.
full_scale_reading :
    channel_get default_config full_scale chan_voltage ≡ ok (record { val1 = 0; val2 = 153466 })
unfolding channel_get
full_scale_reading = refl

channel_get_lem_example :
    (v : SensorValue) × (channel_get default_config full_scale chan_voltage ≡ ok v)
    × (v.val2 < 1000000)
    × (((4095 * 3300 * 1000 < 2 ^ 32)
          × (v.val1 * 1000000 + v.val2 ≡ true_microvolts default_config full_scale))
        ⊎ ((2 ^ 32 ≤ 4095 * 3300 * 1000)
            × (v.val1 * 1000000 + v.val2 < 1048576)
            × (1048576 ≤ true_microvolts default_config full_scale)))
channel_get_lem_example = channel_get_lem default_config full_scale

-- A failed transfer between two readings of the converter.
abbrev answers_of_bus : List BusRead
answers_of_bus = received 0x03 0xE8 ∷ bus_error 259 ∷ received 0xF0 0x10 ∷ []

abbrev well : Answers
well = record { memory = true; add_device = none }

abbrev nothing_held : System
nothing_held = record { allocated = 0; on_bus = 0 }

apps_agree_example :
    (t : System) × (readings : List (Result ℕ)) × (app_main true well nothing_held answers_of_bus
      ≡ logs t readings)
    × SameTurns (main default_config (record { raw = 0 }) answers_of_bus) readings
unfolding raw12
apps_agree_example =
    apps_agree default_config (record { raw = 0 }) well nothing_held answers_of_bus refl refl refl
      (omega arith, (omega arith, tt))
