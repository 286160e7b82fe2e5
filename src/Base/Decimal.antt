-- ===== src/Base/Decimal.antt =====
-- The length of a printed number, and the reader that undoes the printing.
use Prim.Native.Nat.{ℕ, zero, suc, ◌+◌, ◌-◌, ◌*◌, ◌/◌, ◌%◌, ◌^◌, ◌≤◌, ◌<◌}
use mathlib.Core.Path.{◌≡◌, ◌∙◌, ap}
use mathlib.Core.List.{[], ◌∷◌}
use mathlib.Core.Logic.{inl, inr}
use native.Mathlib.Omega.{arith}
use winegrid_internship.Base.Tests.{ltb, Bool-cases}
use winegrid_internship.Base.Lists.{length}
use winegrid_internship.Base.Text.{Bytes, dec, dec_onto}
use native.Mathlib.Nat.{pow-suc}

length-dec_onto :
    (f n k : ℕ) (acc : Bytes) → n < 10 ^ suc k → length (dec_onto f n acc) ≤ suc k + length acc
unfolding dec_onto
length-dec_onto zero n k acc h = omega arith
length-dec_onto (suc f) n zero acc h = ground arith
length-dec_onto (suc f) n (suc k) acc h =
    ground (arith, length-dec_onto f (n / 10) k ((b'0' + n % 10) ∷ acc), pow-suc 10 (suc k))

-- A number below 10 ^ k is printed in at most k digits.
pub length-dec : (n k : ℕ) → n < 10 ^ suc k → length (dec n) ≤ suc k
unfolding dec
length-dec n k h = omega (arith, length-dec_onto (suc n) n k [] h)

-- The number that decimal digits stand for.
unfoldable pub dec_value : ℕ → Bytes → ℕ
dec_value acc [] = acc
dec_value acc (c ∷ cs) = dec_value (acc * 10 + (c - b'0')) cs

dec_value-onto : (f n : ℕ) (acc : Bytes) → n < f → dec_value 0 (dec_onto f n acc) ≡ dec_value n acc
unfolding dec_value dec_onto
dec_value-onto zero n acc h = absurd (omega arith)
dec_value-onto (suc f) n acc h = elim (Bool-cases (ltb n 10)) [
  | inl small ↦
      let e : 0 * 10 + (b'0' + n % 10 - b'0') ≡ n = ground arith in
      rw small (ap (λ t. dec_value t acc) e)
  | inr big ↦
      let e : n / 10 * 10 + (b'0' + n % 10 - b'0') ≡ n = omega arith in
      rw big (
        dec_value-onto f (n / 10) ((b'0' + n % 10) ∷ acc) (ground arith)
        ∙ ap (λ t. dec_value t acc) e)
]

-- Reading what `%u` printed gives the number back.
pub dec_value-dec : (n : ℕ) → dec_value 0 (dec n) ≡ n
unfolding dec dec_value
dec_value-dec n = dec_value-onto (suc n) n [] (omega arith)
