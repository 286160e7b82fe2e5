-- ===== src/Mcp3221/Zephyr/App.antt =====
-- The application that tries the Zephyr driver, zephyr-mcp3221-poc/app/src/main.c.
use winegrid_internship.Base.{List, [], ◌∷◌, Result, ok, err}
use winegrid_internship.Mcp3221.{BusRead}
use winegrid_internship.Mcp3221.Zephyr.{
  Config, Data, SensorValue, chan_all, chan_voltage, sample_fetch, channel_get,
}

-- One turn of the loop of `main`: what it prints of the sensor. `sensor_sample_fetch` fetches all
-- channels.
unfoldable pub print_round : Config → Data → BusRead → Data × Result SensorValue
print_round c d bus =
    let (d', fetched) = sample_fetch d chan_all bus in
    elim fetched [ ok u ↦ (d', channel_get c d' chan_voltage) | err e ↦ (d', err e) ]

-- The loop of `main`, one turn for each answer of the bus.
unfoldable pub main : Config → Data → List BusRead → List (Result SensorValue)
unfolding print_round
main c d [] = []
main c d (bus ∷ buses) = let turn = print_round c d bus in turn.1 ∷ main c turn.0 buses
