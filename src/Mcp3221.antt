-- ===== src/Mcp3221.antt =====
-- The MCP3221 12-bit ADC: the value that both drivers read off the I2C bus,
-- zephyr-mcp3221-poc/module/drivers/sensor/mcp3221/mcp3221.c and
-- esp-idf-mcp3221-poc/components/mcp3221/mcp3221.c.
pub mod Zephyr
pub mod Idf
pub mod Agreement
pub mod AppsAgree
mod Tests
use winegrid_internship.Base.{
  ℕ, ◌+◌, ◌*◌, ◌%◌, ◌<◌, ◌≡◌, arith, bit_and, bit_or, low_nibble, join_bytes,
}

-- What the bus driver answers to a read of two bytes: its error code, or the bytes.
pub data BusRead : Type 0 where
  bus_error : ℕ → BusRead
  received : ℕ → ℕ → BusRead

-- `((rx_buf[0] & 0x0F) << 8) | rx_buf[1]`.
unfoldable pub raw12 : ℕ → ℕ → ℕ
raw12 b0 b1 = bit_or (bit_and b0 0x0F * 256) b1

pub raw12_lem : (b0 b1 : ℕ) → b0 < 256 → b1 < 256 → raw12 b0 b1 ≡ b0 % 16 * 256 + b1
unfolding raw12
raw12_lem b0 b1 h0 h1 =
    omega (arith, ap_low, join_bytes (bit_and b0 0x0F) b1 (omega (arith, low_nibble b0 h0)) h1)
  where
    ap_low : bit_and b0 0x0F ≡ b0 % 16
    ap_low = low_nibble b0 h0

pub raw12-lt : (b0 b1 : ℕ) → b0 < 256 → b1 < 256 → raw12 b0 b1 < 4096
raw12-lt b0 b1 h0 h1 = omega (arith, raw12_lem b0 b1 h0 h1)
