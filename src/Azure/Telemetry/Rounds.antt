-- ===== src/Azure/Telemetry/Rounds.antt =====
-- When telemetry is published.
use winegrid_internship.Base.{
  ℕ, zero, suc, ◌+◌, ◌*◌, ◌≤◌, ◌<◌, ◌≡◌, arith, true, false, if◌then◌else◌,
}
use winegrid_internship.Azure.{Hub, publish}
use winegrid_internship.Azure.Telemetry.{next_temperature, telemetry_payload, telemetry_round}

-- The simulated sensor stays within its ramp.
abbrev pub InRamp : ℕ → Type 0
InRamp t = (20 ≤ t) × (t < 30)

pub next_temperature-InRamp : (t : ℕ) → InRamp (next_temperature t)
unfolding next_temperature
next_temperature-InRamp t = omega arith

-- Rounds of the loop with nothing else happening.
unfoldable pub rounds : {S : Type 0} → ℕ → ℕ → Hub S → ℕ × Hub S
rounds zero waited_ms h = (waited_ms, h)
rounds (suc n) waited_ms h = let next = telemetry_round waited_ms h in rounds n next.0 next.1

-- The hub after one publication.
abbrev pub published : {S : Type 0} → Hub S → Hub S
published h =
    publish h.telemetry_topic (telemetry_payload (next_temperature h.fake_temperature)) (record h {
      c2d_force_telemetry = false;
      fake_temperature = next_temperature h.fake_temperature;
    })

module _ {S : Type 0} (h : Hub S) (connected : h.hub_connected ≡ true) where
  round_waits :
      (waited_ms : ℕ)
      → h.c2d_force_telemetry ≡ false
      → waited_ms < h.publish_interval_ms
      → telemetry_round waited_ms h ≡ (waited_ms + 200, h)
  unfolding telemetry_round
  round_waits waited_ms quiet early = ground arith

  round_due :
      (waited_ms : ℕ)
      → h.publish_interval_ms ≤ waited_ms
      → telemetry_round waited_ms h ≡ (200, published h)
  unfolding telemetry_round
  round_due waited_ms due = ground arith

  rounds_wait :
      (n waited_ms : ℕ)
      → h.c2d_force_telemetry ≡ false
      → waited_ms + 200 * n < h.publish_interval_ms + 200
      → h.publish_interval_ms ≤ waited_ms + 200 * n
      → rounds (suc n) waited_ms h ≡ (200, published h)
  unfolding rounds
  rounds_wait zero waited_ms quiet early due = round_due waited_ms (omega arith)
  rounds_wait (suc n) waited_ms quiet early due =
      rw (round_waits waited_ms quiet (omega arith))
        (rounds_wait n (waited_ms + 200) quiet (omega arith) (omega arith))

  -- While the hub is connected and no cloud message asks for telemetry, a publication is followed
  -- by the next one after the first number of 200 ms rounds that reaches the publish interval:
  -- in all those rounds exactly one message is published, with the next temperature of the ramp,
  -- and the wait starts anew.
  pub telemetry_period :
      (n : ℕ)
      → h.c2d_force_telemetry ≡ false
      → 200 * n < h.publish_interval_ms
      → h.publish_interval_ms ≤ 200 * n + 200
      → (rounds (suc n) 200 h ≡ (200, published h)) × InRamp (published h).fake_temperature
  unfolding publish
  telemetry_period n quiet early due = (
    rounds_wait n 200 quiet (omega arith) (omega arith),
    next_temperature-InRamp h.fake_temperature,
  )

-- A cloud message that asks for telemetry is served by the next round while the hub is connected,
-- however short the wait was, and the request is then cleared. While the hub is not connected the
-- request is kept, nothing is published, and the wait goes on.
telemetry_forced :
    {S : Type 0} (h : Hub S) (waited_ms : ℕ)
    → h.c2d_force_telemetry ≡ true
    → telemetry_round waited_ms h
      ≡ (if h.hub_connected then (200, published h) else (waited_ms + 200, h))
unfolding telemetry_round
telemetry_forced h waited_ms forced = ground arith
