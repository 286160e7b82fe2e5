-- ===== src/Mcp3221/Agreement.antt =====
-- The two drivers of the MCP3221 read the same voltage.
use winegrid_internship.Base.{ℕ, ◌+◌, ◌*◌, ◌/◌, ◌%◌, ◌^◌, ◌<◌, ◌≡◌, refl, arith, true, some, ok}
use winegrid_internship.Mcp3221.{received, raw12}
use winegrid_internship.Mcp3221.Zephyr
use winegrid_internship.Mcp3221.Zephyr.{
  Data, SensorValue, chan_voltage, sample_fetch, microvolts, channel_get,
}
use winegrid_internship.Mcp3221.Idf.{Handle, read_voltage_mv}

-- For the same two bytes from the converter and the same reference voltage, where the voltage
-- is below the 1.048576 V at which the Zephyr driver's 32 bits wrap, the voltage that it reports
-- after a fetch, in µV and rounded down to mV, is the one that the ESP-IDF component reads.
pub drivers_agree :
    (c : Zephyr.Config) (d : Data) (h : Handle) (b0 b1 : ℕ)
    → raw12 b0 b1 * c.vref_mv * 1000 < 2 ^ 32
    → h.vref_mv ≡ c.vref_mv
    → (v : SensorValue) × (mv : ℕ) × (channel_get c
          (sample_fetch d chan_voltage (received b0 b1)).0
          chan_voltage
        ≡ ok v)
      × (read_voltage_mv (some h) true (received b0 b1) ≡ ok mv)
      × ((v.val1 * 1000000 + v.val2) / 1000 ≡ mv)
unfolding channel_get sample_fetch read_voltage_mv microvolts
drivers_agree c d h b0 b1 small same =
    let raw = raw12 b0 b1 in
    let m = raw * c.vref_mv % 2 ^ 32 * 1000 % 2 ^ 32 / 4096 in
    (
      record { val1 = m / 1000000; val2 = m % 1000000 },
      raw * h.vref_mv % 2 ^ 32 / 4096,
      refl,
      refl,
      rw same (omega arith),
    )
