-- ===== src/Mcp3221/Idf.antt =====
-- The ESP-IDF component, esp-idf-mcp3221-poc/components/mcp3221/mcp3221.c. A pointer argument is an
-- `Option`, or a Boolean where only its being NULL is read.
pub mod Readings
pub mod App
use winegrid_internship.Base.{
  ℕ, ◌+◌, ◌-◌, ◌*◌, ◌/◌, ◌%◌, ◌^◌, Bool, true, false, ◌&&◌, not, if◌then◌else◌, Option, none, some,
  Result, ok, err, Status, esp_err_invalid_arg, esp_err_no_mem, extern,
}
use winegrid_internship.Mcp3221.{BusRead, bus_error, received, raw12}

pub record Config : Type 0 where
  pub i2c_address : ℕ
  pub vref_mv : ℕ

-- `struct mcp3221_dev`; `i2c_dev` is the bus address it was registered at.
pub record Handle : Type 0 where
  pub i2c_dev : ℕ
  pub vref_mv : ℕ

-- What the component holds of the system: blocks on the heap, and devices on the bus.
pub record System : Type 0 where
  pub allocated : ℕ
  pub on_bus : ℕ

-- What `calloc` and `i2c_master_bus_add_device` answer; `some c` is the error code `c`.
pub record Answers : Type 0 where
  pub memory : Bool
  pub add_device : Option ℕ

register : Config → Option ℕ → System → System × Result Handle
register config (some code) s = (record s { allocated = s.allocated - 1 }, err (extern code))
register config none s = (
  record s { on_bus = s.on_bus + 1 },
  ok (record { i2c_dev = config.i2c_address; vref_mv = config.vref_mv }),
)

-- `mcp3221_init`. `bus` and `out_handle` say whether the pointer is not NULL.
unfoldable pub init : Bool → Option Config → Bool → Answers → System → System × Result Handle
unfolding register
init bus none out_handle answers s = (s, err esp_err_invalid_arg)
init bus (some config) out_handle answers s =
    if not (bus && out_handle)
    then (s, err esp_err_invalid_arg)
    else if not answers.memory
    then (s, err esp_err_no_mem)
    else register config answers.add_device (record s { allocated = s.allocated + 1 })

-- `mcp3221_read_raw`; the third argument is what `i2c_master_receive` answers.
unfoldable pub read_raw : Option Handle → Bool → BusRead → Result ℕ
read_raw none out bus = err esp_err_invalid_arg
read_raw (some h) out (bus_error code) =
    if not out then err esp_err_invalid_arg else err (extern code)
read_raw (some h) out (received b0 b1) =
    if not out then err esp_err_invalid_arg else ok (raw12 b0 b1)

-- `mcp3221_read_voltage_mv`, in `uint32_t`.
unfoldable pub read_voltage_mv : Option Handle → Bool → BusRead → Result ℕ
unfolding read_raw
read_voltage_mv none out bus = err esp_err_invalid_arg
read_voltage_mv (some h) out bus =
    if not out then err esp_err_invalid_arg else elim (read_raw (some h) true bus) [
      | err e ↦ err e
      | ok raw ↦ ok (raw * h.vref_mv % 2 ^ 32 / 2 ^ 12)
    ]

-- `mcp3221_deinit`.
unfoldable pub deinit : Option Handle → System → System
deinit none s = s
deinit (some h) s = record s { allocated = s.allocated - 1; on_bus = s.on_bus - 1 }
