-- ===== src/Mcp3221/Idf/Readings.antt =====
-- The readings of the ESP-IDF component, and what it holds of the heap and the bus.
use winegrid_internship.Base.{
  ℕ, ◌+◌, ◌*◌, ◌/◌, ◌%◌, ◌≤◌, ◌<◌, ◌≡◌, refl, Bool, Option, none, some, Result, ok, err, arith,
  true, false,
}
use winegrid_internship.Mcp3221.{received, raw12_lem, raw12-lt, raw12}
use winegrid_internship.Mcp3221.Idf.{Config, Handle, System, Answers, init, read_voltage_mv, deinit}

product-le : (raw vref : ℕ) → raw < 4096 → vref < 65536 → raw * vref ≤ 4095 * 65535
product-le raw vref h k = grind arith

product-le-scaled : (raw vref : ℕ) → raw < 4096 → raw * vref ≤ 4096 * vref
product-le-scaled raw vref h = grind arith

-- For every two bytes and every 16-bit reference voltage, the reading is exactly
-- raw * vref / 4096: the 32-bit product never wraps, and the reading is at most vref.
read_voltage_exact :
    (h : Handle) (b0 b1 : ℕ)
    → b0 < 256
    → b1 < 256
    → h.vref_mv < 65536
    → (mv : ℕ) × (read_voltage_mv (some h) true (received b0 b1) ≡ ok mv)
      × (mv ≡ (b0 % 16 * 256 + b1) * h.vref_mv / 4096)
      × (mv ≤ h.vref_mv)
unfolding read_voltage_mv
read_voltage_exact h b0 b1 h0 h1 hv =
    let r : raw12 b0 b1 ≡ b0 % 16 * 256 + b1 = raw12_lem b0 b1 h0 h1 in
    let below : raw12 b0 b1 < 4096 = raw12-lt b0 b1 h0 h1 in
    (
      raw12 b0 b1 * h.vref_mv % 4294967296 / 4096,
      refl,
      rw (← r) (omega (arith, product-le (raw12 b0 b1) h.vref_mv below hv)),
      omega (
        arith,
        product-le (raw12 b0 b1) h.vref_mv below hv,
        product-le-scaled (raw12 b0 b1) h.vref_mv below,
      ),
    )

-- Either `init` failed and left the heap and the bus as they were, or it holds one more block and
-- device, with the configured reference voltage, and `deinit` returns both.
abbrev pub FailsOrHolds : Option Config → System → System × Result Handle → Type 0
FailsOrHolds config s (t, err e) = t ≡ s
FailsOrHolds config s (t, ok h) =
    ((c : Config) × (config ≡ some c) × (h.vref_mv ≡ c.vref_mv) × (h.i2c_dev ≡ c.i2c_address))
    × (t ≡ record { allocated = s.allocated + 1; on_bus = s.on_bus + 1 })
    × (deinit (some h) t ≡ s)

init_given :
    (bus out memory : Bool) (config : Option Config) (add : Option ℕ) (s : System)
    → FailsOrHolds config s (init bus config out (record { memory = memory; add_device = add }) s)
unfolding init deinit
init_given bus out memory none add s = refl
init_given false out memory (some c) add s = refl
init_given true false memory (some c) add s = refl
init_given true true false (some c) add s = refl
init_given true true true (some c) (some code) s = ground arith
init_given true true true (some c) none s = ((c, refl, refl, refl), refl, ground arith)

-- Whatever the arguments and the system answer, an initialisation that fails leaves the heap and
-- the bus as they were; one that succeeds had a configuration, copies its reference voltage and
-- address, holds one more block and one more device, and `deinit` returns both.
init-deinit :
    (bus out : Bool) (config : Option Config) (answers : Answers) (s : System)
    → FailsOrHolds config s (init bus config out answers s)
init-deinit bus out config answers s = init_given bus out answers.memory config answers.add_device s
