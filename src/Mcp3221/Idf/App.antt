-- ===== src/Mcp3221/Idf/App.antt =====
-- The application that tries the ESP-IDF component, esp-idf-mcp3221-poc/main/app_main.c.
use winegrid_internship.Base.{
  ℕ, Bool, true, not, if◌then◌else◌, List, [], ◌∷◌, some, Result, ok, err, Errno,
}
use winegrid_internship.Mcp3221.{BusRead}
use winegrid_internship.Mcp3221.Idf.{Config, Handle, System, Answers, init, read_voltage_mv}

-- `mcp_config`, with `MCP3221_I2C_ADDR`.
abbrev pub mcp_config : Config
mcp_config = record { i2c_address = 0x4D; vref_mv = 3300 }

-- How `app_main` ends: `ESP_ERROR_CHECK` aborts, the component is not there, or it logs a reading or
-- a failure in each turn of its loop.
pub data AppEnd : Type 0 where
  aborts : AppEnd
  no_component : System → Errno → AppEnd
  logs : System → List (Result ℕ) → AppEnd

-- The loop of `app_main`, one turn for each answer of the bus.
unfoldable pub log_rounds : Handle → List BusRead → List (Result ℕ)
log_rounds h [] = []
log_rounds h (bus ∷ buses) = read_voltage_mv (some h) true bus ∷ log_rounds h buses

-- What follows `mcp3221_init`.
unfoldable pub with_component : List BusRead → System × Result Handle → AppEnd
with_component buses (s, err e) = no_component s e
with_component buses (s, ok h) = logs s (log_rounds h buses)

-- `app_main`; the first argument says whether `i2c_new_master_bus` succeeds.
unfoldable pub app_main : Bool → Answers → System → List BusRead → AppEnd
unfolding with_component
app_main new_master_bus answers s buses =
    if not new_master_bus
    then aborts
    else with_component buses (init true (some mcp_config) true answers s)
