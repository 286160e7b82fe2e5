-- ===== src/Azure/Telemetry.antt =====
-- `telemetry_task` of esp-idf-azure-dps/main/app_main.c, one round of its loop at a time.
pub mod Rounds
use winegrid_internship.Base.{
  ℕ, ◌+◌, ◌-◌, ◌%◌, Bool, true, false, ◌&&◌, ◌||◌, if◌then◌else◌, leb, ◌++◌, Bytes, codes, dec,
  snprintf,
}
use winegrid_internship.Azure.{Hub, publish}

-- The ramp of the simulated sensor.
unfoldable pub next_temperature : ℕ → ℕ
next_temperature t = 20 + (t + 1 - 20) % 10

unfoldable pub telemetry_payload : ℕ → Bytes
telemetry_payload t = snprintf 64 (codes "{\"temperature\":" ++ (dec t ++ codes "}"))

module _ {S : Type 0} where
  -- One round of the loop; the number is `waited_ms`.
  unfoldable pub telemetry_round : ℕ → Hub S → ℕ × Hub S
  unfolding publish next_temperature
  telemetry_round waited_ms h =
      if h.hub_connected && (leb h.publish_interval_ms waited_ms || h.c2d_force_telemetry)
      then (
        200,
        publish h.telemetry_topic (telemetry_payload (next_temperature h.fake_temperature))
            (record h {
              c2d_force_telemetry = false;
              fake_temperature = next_temperature h.fake_temperature;
            }),
      )
      else (waited_ms + 200, h)
