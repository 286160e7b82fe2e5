-- ===== src/Mcp3221/AppsAgree.antt =====
-- The two applications of the MCP3221 report the same voltages.
use winegrid_internship.Base.{
  ℕ, ◌+◌, ◌*◌, ◌/◌, ◌^◌, ◌<◌, ◌≡◌, refl, sym, ap, ◌∙◌, true, List, [], ◌∷◌, none, some, Result, ok,
  err,
}
use winegrid_internship.Mcp3221.{BusRead, bus_error, received, raw12}
use winegrid_internship.Mcp3221.Zephyr
use winegrid_internship.Mcp3221.Zephyr.{Data, SensorValue, chan_voltage, sample_fetch, channel_get}
use winegrid_internship.Mcp3221.Zephyr.App.{print_round, main}
use winegrid_internship.Mcp3221.Idf.{Handle, System, Answers, init, read_voltage_mv}
use winegrid_internship.Mcp3221.Idf.App.{logs, log_rounds, with_component, mcp_config, app_main}
use winegrid_internship.Mcp3221.Agreement.{drivers_agree}

-- Where the converter answers, its voltage at 3300 mV is below the 1.048576 V at which the 32 bits
-- of the Zephyr driver wrap.
abbrev pub AreBelow : List BusRead → Type 0
AreBelow [] = Unit
AreBelow (bus_error code ∷ buses) = AreBelow buses
AreBelow (received b0 b1 ∷ buses) = (raw12 b0 b1 * 3300 * 1000 < 2 ^ 32) × AreBelow buses

-- Turn by turn, both fail with the same error, or both give a voltage, the same one in mV.
abbrev pub SameTurn : Result SensorValue → Result ℕ → Type 0
SameTurn (ok v) (ok mv) = (v.val1 * 1000000 + v.val2) / 1000 ≡ mv
SameTurn (err e) (err f) = e ≡ f
SameTurn (ok v) (err f) = ⊥
SameTurn (err e) (ok mv) = ⊥

abbrev pub SameTurns : List (Result SensorValue) → List (Result ℕ) → Type 0
SameTurns [] [] = Unit
SameTurns (r ∷ rs) (q ∷ qs) = SameTurn r q × SameTurns rs qs
SameTurns [] (q ∷ qs) = ⊥
SameTurns (r ∷ rs) [] = ⊥

turn_same :
    (c : Zephyr.Config) (d : Data) (h : Handle) (b0 b1 : ℕ)
    → c.vref_mv ≡ 3300
    → h.vref_mv ≡ 3300
    → raw12 b0 b1 * 3300 * 1000 < 2 ^ 32
    → SameTurn
        (channel_get c (sample_fetch d chan_voltage (received b0 b1)).0 chan_voltage)
        (read_voltage_mv (some h) true (received b0 b1))
turn_same c d h b0 b1 vc vh below =
    let (v, mv, gives, reads, same) = drivers_agree c d h b0 b1 (rw vc below) (vh ∙ sym vc) in
    rw (gives, reads) same

rounds_same :
    (c : Zephyr.Config) (d : Data) (h : Handle) (buses : List BusRead)
    → c.vref_mv ≡ 3300
    → h.vref_mv ≡ 3300
    → AreBelow buses
    → SameTurns (main c d buses) (log_rounds h buses)
unfolding main log_rounds print_round sample_fetch channel_get read_voltage_mv
rounds_same c d h [] vc vh below = tt
rounds_same c d h (bus_error code ∷ buses) vc vh below = (refl, rounds_same c d h buses vc vh below)
rounds_same c d h (received b0 b1 ∷ buses) vc vh below = (
  turn_same c d h b0 b1 vc vh below.0,
  rounds_same c (record d { raw = raw12 b0 b1 }) h buses vc vh below.1,
)

initialised :
    (answers : Answers) (s : System)
    → answers.memory ≡ true
    → answers.add_device ≡ none
    → init true (some mcp_config) true answers s ≡ (
      record s { allocated = s.allocated + 1; on_bus = s.on_bus + 1 },
      ok (record { i2c_dev = 0x4D; vref_mv = 3300 }),
    )
unfolding init
initialised answers s memory device = rw (memory, device) refl

-- While the voltage of the converter stays below 1.048576 V, the application of Zephyr, configured
-- for the same 3300 mV, and the one of ESP-IDF, whose bus and component are set up, report the same
-- in every turn for the same answers of the bus: the same error, or the same voltage in mV.
pub apps_agree :
    (c : Zephyr.Config) (d : Data) (answers : Answers) (s : System) (buses : List BusRead)
    → c.vref_mv ≡ mcp_config.vref_mv
    → answers.memory ≡ true
    → answers.add_device ≡ none
    → AreBelow buses
    → (t : System) × (readings : List (Result ℕ)) × (app_main true answers s buses
        ≡ logs t readings)
      × SameTurns (main c d buses) readings
unfolding app_main with_component
apps_agree c d answers s buses vc memory device below =
    let h : Handle = record { i2c_dev = 0x4D; vref_mv = 3300 } in
    (
      record s { allocated = s.allocated + 1; on_bus = s.on_bus + 1 },
      log_rounds h buses,
      ap (with_component buses) (initialised answers s memory device),
      rounds_same c d h buses vc refl below,
    )
