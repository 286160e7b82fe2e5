-- ===== src/Mcp3221/Zephyr/Voltage.antt =====
-- What `mcp3221_sample_fetch` stores and what `mcp3221_channel_get` reports.
use winegrid_internship.Base.{
  ℕ, ◌+◌, ◌*◌, ◌/◌, ◌%◌, ◌^◌, ◌≤◌, ◌<◌, ◌≡◌, arith, ok, err, enotsup, extern, refl, ◌⊎◌, inl, inr,
  Bool-cases, ltb, ltb→lt, le_of_ltb,
}
use winegrid_internship.Mcp3221.{BusRead, bus_error, received, raw12_lem, raw12-lt}
use winegrid_internship.Mcp3221.Zephyr.{
  SensorChannel, chan_all, chan_voltage, chan_other, Config, Data, SensorValue, sample_fetch,
  microvolts, channel_get,
}

-- The true voltage in µV, with no machine word in between.
abbrev pub true_microvolts : Config → Data → ℕ
true_microvolts c d = d.raw * c.vref_mv * 1000 / 4096

-- A channel that the driver serves.
abbrev pub IsServed : SensorChannel → Type 0
IsServed chan_all = Unit
IsServed chan_voltage = Unit
IsServed (chan_other n) = ⊥

-- A fetch that the bus answers stores the 12-bit value of the two bytes, below 4096, on the
-- channels that the driver serves. A bus error is passed on and keeps the last value; any other
-- channel is refused with ENOTSUP whatever the bus says, and keeps it too.
sample_fetch_lem :
    (d : Data) (b0 b1 code other : ℕ) (chan : SensorChannel) (bus : BusRead)
    → b0 < 256
    → b1 < 256
    → IsServed chan
    → ((sample_fetch d chan (received b0 b1)).0.raw ≡ b0 % 16 * 256 + b1)
      × ((sample_fetch d chan (received b0 b1)).0.raw < 4096)
      × ((sample_fetch d chan (received b0 b1)).1 ≡ ok tt)
      × (sample_fetch d chan (bus_error code) ≡ (d, err (extern code)))
      × (sample_fetch d (chan_other other) bus ≡ (d, err enotsup))
unfolding sample_fetch
sample_fetch_lem d b0 b1 code other chan_all (bus_error c) h0 h1 s =
    (raw12_lem b0 b1 h0 h1, raw12-lt b0 b1 h0 h1, refl, refl, refl)
sample_fetch_lem d b0 b1 code other chan_all (received x y) h0 h1 s =
    (raw12_lem b0 b1 h0 h1, raw12-lt b0 b1 h0 h1, refl, refl, refl)
sample_fetch_lem d b0 b1 code other chan_voltage (bus_error c) h0 h1 s =
    (raw12_lem b0 b1 h0 h1, raw12-lt b0 b1 h0 h1, refl, refl, refl)
sample_fetch_lem d b0 b1 code other chan_voltage (received x y) h0 h1 s =
    (raw12_lem b0 b1 h0 h1, raw12-lt b0 b1 h0 h1, refl, refl, refl)
sample_fetch_lem d b0 b1 code other (chan_other n) bus h0 h1 s = absurd s

-- Where raw * vref * 1000 fits in 32 bits, the two parts of the reported value are whole volts
-- and a remainder below 10⁶, and together they are exactly the true voltage in µV.
channel_get_exact :
    (c : Config) (d : Data)
    → d.raw * c.vref_mv * 1000 < 2 ^ 32
    → (v : SensorValue) × (channel_get c d chan_voltage ≡ ok v)
      × (v.val1 * 1000000 + v.val2 ≡ true_microvolts c d)
      × (v.val2 < 1000000)
unfolding channel_get
channel_get_exact c d h = (
  record { val1 = microvolts c d / 1000000; val2 = microvolts c d % 1000000 },
  refl,
  omega arith,
  omega arith,
)

-- Where raw * vref * 1000 does not fit in 32 bits, the reported voltage is below 1.048576 V and
-- the true voltage is 1.048576 V or more.
channel_get_wraps :
    (c : Config) (d : Data) (v : SensorValue)
    → 2 ^ 32 ≤ d.raw * c.vref_mv * 1000
    → channel_get c d chan_voltage ≡ ok v
    → (v.val1 * 1000000 + v.val2 < 1048576) × (1048576 ≤ true_microvolts c d)
unfolding channel_get
channel_get_wraps c d v h e = ground arith

-- The voltage channel always gives a value, of whole volts and a remainder below 10⁶. Where
-- raw * vref * 1000 fits in 32 bits, it is exactly the true voltage in µV; where it does not, it is
-- below 1.048576 V, and the true voltage is 1.048576 V or more.
pub channel_get_lem :
    (c : Config) (d : Data)
    → (v : SensorValue) × (channel_get c d chan_voltage ≡ ok v)
      × (v.val2 < 1000000)
      × (((d.raw * c.vref_mv * 1000 < 2 ^ 32) × (v.val1 * 1000000 + v.val2 ≡ true_microvolts c d))
          ⊎ ((2 ^ 32 ≤ d.raw * c.vref_mv * 1000)
              × (v.val1 * 1000000 + v.val2 < 1048576)
              × (1048576 ≤ true_microvolts c d)))
unfolding channel_get
channel_get_lem c d = elim (Bool-cases (ltb (d.raw * c.vref_mv * 1000) (2 ^ 32))) [
  | inl fits ↦
      let h = ltb→lt (d.raw * c.vref_mv * 1000) (2 ^ 32) fits in
      let (v, given, exact, below) = channel_get_exact c d h in (v, given, below, inl (h, exact))
  | inr over ↦
      let h = le_of_ltb (d.raw * c.vref_mv * 1000) (2 ^ 32) over in
      let v : SensorValue = record {
        val1 = microvolts c d / 1000000;
        val2 = microvolts c d % 1000000;
      } in
      let wrapped = channel_get_wraps c d v h refl in
      (v, refl, omega arith, inr (h, wrapped.0, wrapped.1))
]
