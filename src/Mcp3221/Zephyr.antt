-- ===== src/Mcp3221/Zephyr.antt =====
-- The Zephyr sensor driver, zephyr-mcp3221-poc/module/drivers/sensor/mcp3221/mcp3221.c.
pub mod Voltage
pub mod App
use winegrid_internship.Base.{
  ℕ, ◌*◌, ◌/◌, ◌%◌, ◌^◌, Bool, true, false, ◌&&◌, not, if◌then◌else◌, Result, ok, err, Status,
  enotsup, enodev, extern,
}
use winegrid_internship.Mcp3221.{BusRead, bus_error, received, raw12}

pub data SensorChannel : Type 0 where
  chan_all chan_voltage : SensorChannel
  chan_other : ℕ → SensorChannel

pub record Config : Type 0 where
  pub vref_mv : ℕ

pub record Data : Type 0 where
  pub raw : ℕ

pub record SensorValue : Type 0 where
  pub val1 : ℕ
  pub val2 : ℕ

unfoldable pub is_all : SensorChannel → Bool
is_all chan_all = true
is_all _ = false

unfoldable pub is_voltage : SensorChannel → Bool
is_voltage chan_voltage = true
is_voltage _ = false

-- `mcp3221_sample_fetch`; the third argument is what `i2c_read_dt` answers.
unfoldable pub sample_fetch : Data → SensorChannel → BusRead → Data × Status
unfolding is_all is_voltage
sample_fetch d chan (bus_error code) =
    if not (is_all chan) && not (is_voltage chan) then (d, err enotsup) else (d, err (extern code))
sample_fetch d chan (received b0 b1) =
    if not (is_all chan) && not (is_voltage chan)
    then (d, err enotsup)
    else (record d { raw = raw12 b0 b1 }, ok tt)

-- `microvolts`, in `uint32_t`.
unfoldable pub microvolts : Config → Data → ℕ
microvolts c d = d.raw * c.vref_mv % 2 ^ 32 * 1000 % 2 ^ 32 / 2 ^ 12

-- `mcp3221_channel_get`.
unfoldable pub channel_get : Config → Data → SensorChannel → Result SensorValue
unfolding is_voltage microvolts
channel_get c d chan =
    if not (is_voltage chan)
    then err enotsup
    else ok (record { val1 = microvolts c d / 1000000; val2 = microvolts c d % 1000000 })

-- `mcp3221_init`; the argument is what `i2c_is_ready_dt` answers.
unfoldable pub init : Bool → Status
init ready = if not ready then err enodev else ok tt
