-- ===== src/Base/Int.antt =====
-- Signed integers, as far as the program prints and compares them.
use Prim.Native.Nat.{ℕ, suc}
use mathlib.Core.Bool.{Bool, true, false}
use mathlib.Core.List.{◌∷◌}
use winegrid_internship.Base.Tests.{ltb, ◌==◌}
use winegrid_internship.Base.Text.{Bytes, dec}

-- `negsuc n` is -(n + 1).
pub data ℤ : Type 0 where
  pos : ℕ → ℤ
  negsuc : ℕ → ℤ

-- `%d`.
unfoldable pub dec_int : ℤ → Bytes
unfolding dec
dec_int (pos n) = dec n
dec_int (negsuc n) = b'-' ∷ dec (suc n)

-- `i < n` for a natural number `n`.
abbrev pub int_ltb : ℤ → ℕ → Bool
int_ltb (pos i) n = ltb i n
int_ltb (negsuc i) n = true

unfoldable pub is_zero : ℤ → Bool
is_zero (pos n) = n == 0
is_zero (negsuc n) = false
