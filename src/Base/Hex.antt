-- ===== src/Base/Hex.antt =====
-- Bytes as two hexadecimal digits, and the reader that undoes it.
use Prim.Native.Nat.{ℕ, ◌+◌, ◌-◌, ◌*◌, ◌/◌, ◌%◌, ◌<◌}
use mathlib.Core.Path.{◌≡◌, refl}
use mathlib.Core.List.{[], ◌∷◌}
use native.Mathlib.Omega.{arith}
use winegrid_internship.Base.Tests.{ltb, if◌then◌else◌}
use winegrid_internship.Base.Lists.{length}
use winegrid_internship.Base.Text.{Bytes}

-- Every element is a byte.
abbrev pub AreBytes : Bytes → Type 0
AreBytes [] = Unit
AreBytes (x ∷ xs) = (x < 256) × AreBytes xs

-- A digit of `%x`, and one of `%X`.
unfoldable pub hex_lower : ℕ → ℕ
hex_lower n = if ltb n 10 then b'0' + n else b'a' + (n - 10)

unfoldable pub hex_upper : ℕ → ℕ
hex_upper n = if ltb n 10 then b'0' + n else b'A' + (n - 10)

-- `%02x` for each byte in turn.
unfoldable pub hex_bytes : Bytes → Bytes
unfolding hex_lower
hex_bytes [] = []
hex_bytes (x ∷ xs) = hex_lower (x / 16) ∷ hex_lower (x % 16) ∷ hex_bytes xs

pub length-hex_bytes : (xs : Bytes) → length (hex_bytes xs) ≡ 2 * length xs
unfolding hex_bytes
length-hex_bytes [] = refl
length-hex_bytes (x ∷ xs) = omega (arith, length-hex_bytes xs)

-- The value of a hexadecimal digit of either case.
unfoldable pub digit_value : ℕ → ℕ
digit_value c = if ltb c b'A' then c - b'0' else if ltb c b'a' then c - b'A' + 10 else c - b'a' + 10

pub digit_value-hex_lower : (n : ℕ) → n < 16 → digit_value (hex_lower n) ≡ n
unfolding digit_value hex_lower
digit_value-hex_lower n h = ground arith

pub digit_value-hex_upper : (n : ℕ) → n < 16 → digit_value (hex_upper n) ≡ n
unfolding digit_value hex_upper
digit_value-hex_upper n h = ground arith

-- Reads pairs of digits; an odd digit at the end is dropped.
unfoldable pub unhex : Bytes → Bytes
unhex [] = []
unhex (a ∷ []) = []
unhex (a ∷ b ∷ xs) = (digit_value a * 16 + digit_value b) ∷ unhex xs

pub unhex-hex_bytes : (xs : Bytes) → AreBytes xs → unhex (hex_bytes xs) ≡ xs
unfolding unhex hex_bytes
unhex-hex_bytes [] h = refl
unhex-hex_bytes (x ∷ xs) h =
    ground (
      arith,
      digit_value-hex_lower (x / 16),
      digit_value-hex_lower (x % 16),
      unhex-hex_bytes xs h.1,
    )
