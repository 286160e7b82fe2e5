-- ===== src/Base/Bits.antt =====
-- The masks and shifts of the drivers, as arithmetic: nibbles and bytes are tried one by one.
use Prim.Native.Nat.{ℕ, zero, suc, ◌+◌, ◌*◌, ◌%◌, ◌<◌, bit_and, bit_or}
use mathlib.Core.Path.{◌≡◌, refl}
use mathlib.Core.Bool.{Bool, true, false}
use native.Mathlib.Omega.{arith}
use winegrid_internship.Base.Tests.{◌==◌, ==_iff, if◌then◌else◌}

-- A test of numbers that passes at each one under the bound.
unfoldable pub passes : (ℕ → Bool) → ℕ → Bool
passes test zero = true
passes test (suc bound) = let smaller = passes test bound in if test bound then smaller else false

pub passes_lem :
    (test : ℕ → Bool) {k : ℕ} (bound : ℕ) → k < bound → passes test bound ≡ true → test k ≡ true
unfolding passes
passes_lem test {k = k} zero under passed = absurd (omega arith)
passes_lem test {k = k} (suc bound) under passed = ground (arith, passes_lem test {k = k} bound)

-- `x & 0x0F` on a byte.
pub low_nibble : (x : ℕ) → x < 256 → bit_and x 0x0F ≡ x % 16
unfolding passes
low_nibble x h = (==_iff _ _).0 (passes_lem (λ byte. bit_and byte 0x0F == byte % 16) 256 h refl)

-- `(hi << 8) | lo` for a nibble and a byte.
pub join_bytes : (hi lo : ℕ) → hi < 16 → lo < 256 → bit_or (hi * 256) lo ≡ hi * 256 + lo
unfolding passes
join_bytes hi lo h l = (==_iff _ _).0 (
    passes_lem (λ byte. bit_or (hi * 256) byte == hi * 256 + byte) 256 l
      (passes_lem (λ nibble. passes (λ byte. bit_or (nibble * 256) byte == nibble * 256 + byte) 256)
        16 h refl))
