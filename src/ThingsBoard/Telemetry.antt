-- ===== src/ThingsBoard/Telemetry.antt =====
-- `telemetry_task` of esp-idf-thingsboard/main/app_main.c.
use winegrid_internship.Base.{ℕ, ◌+◌, ◌-◌, ◌%◌, if◌then◌else◌, ◌++◌, codes, dec, snprintf}
use winegrid_internship.ThingsBoard.{Client, publish, telemetry_topic}

-- The ramp of the simulated sensor.
unfoldable pub ramp : ℕ → ℕ
ramp t = 20 + (t + 1 - 20) % 10

-- One round of the loop, with the time that it then waits in ms.
unfoldable pub telemetry_round : {S C : Type 0} → Client S C → ℕ × Client S C
unfolding publish ramp
telemetry_round h =
    if h.mqtt_connected
    then (
      h.publish_interval_ms,
      publish telemetry_topic
          (snprintf 64 (codes "{\"temperature\":" ++ (dec (ramp h.fake_temperature) ++ codes "}")))
          (record h { fake_temperature = ramp h.fake_temperature }),
    )
    else (h.publish_interval_ms, h)
