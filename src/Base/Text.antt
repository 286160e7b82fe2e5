-- ===== src/Base/Text.antt =====
-- Bytes and C strings. A C string is the list of its bytes before the NUL; a `char` array that is
-- only written by `strncpy` or `snprintf` is modelled by the C string that it holds.
use Prim.Native.Nat.{ℕ, zero, suc, ◌+◌, ◌-◌, ◌/◌, ◌%◌}
use Prim.Native.Char.{code}
use Prim.Native.String.{String}
use mathlib.Core.Path.{◌≡◌, refl}
use mathlib.Core.Logic.{◌≢◌, ◌↔◌}
use mathlib.Core.Bool.{Bool, true, false, ◌&&◌}
use mathlib.Core.List.{List, [], ◌∷◌, ◌++◌}
use native.Mathlib.Omega.{arith}
use winegrid_internship.Base.Tests.{ltb, ◌==◌, if◌then◌else◌}
use winegrid_internship.Base.Lists.{take}

abbrev pub Bytes : Type 0
Bytes = List ℕ

-- The bytes of a text that is ASCII.
abbrev pub codes : String → Bytes
codes String.[] = []
codes (String.◌∷◌ c s) = code c ∷ codes s

-- `strcmp(a, b) == 0`, and `memcmp` on as many bytes as both have.
unfoldable pub str_eq : Bytes → Bytes → Bool
str_eq [] [] = true
str_eq (x ∷ xs) (y ∷ ys) = x == y && str_eq xs ys
str_eq _ _ = false

pub str_eq-eq : (a b : Bytes) → str_eq a b ≡ true → a ≡ b
unfolding str_eq
str_eq-eq [] [] h = refl
str_eq-eq [] (y ∷ ys) h = cc
str_eq-eq (x ∷ xs) [] h = cc
str_eq-eq (x ∷ xs) (y ∷ ys) h = ground (arith, str_eq-eq xs ys)

pub str_eq_refl : (a : Bytes) → str_eq a a ≡ true
unfolding str_eq
str_eq_refl [] = refl
str_eq_refl (x ∷ xs) = ground (arith, str_eq_refl xs)

pub str_eq_iff : (a b : Bytes) → (str_eq a b ≡ true) ↔ (a ≡ b)
str_eq_iff a b = (str_eq-eq a b, λ e. rw e (str_eq_refl b))

pub str_eq_ne : (a b : Bytes) → a ≢ b → str_eq a b ≡ false
str_eq_ne a b h = ground (arith, str_eq-eq a b)

pub ne_of_str_eq : (a b : Bytes) → str_eq a b ≡ false → a ≢ b
ne_of_str_eq a b h e = ground (arith, (str_eq_iff a b).1 e)

-- What `snprintf(buf, n, …)` leaves in `buf` for the text `s`.
abbrev pub snprintf : ℕ → Bytes → Bytes
snprintf n s = take (n - 1) s

-- `strncmp(s, prefix, strlen(prefix)) == 0` where `s` may be shorter.
unfoldable pub starts_with : Bytes → Bytes → Bool
starts_with [] s = true
starts_with (p ∷ ps) [] = false
starts_with (p ∷ ps) (c ∷ cs) = p == c && starts_with ps cs

pub starts_with-append : (p s : Bytes) → starts_with p (p ++ s) ≡ true
unfolding starts_with
starts_with-append [] s = refl
starts_with-append (p ∷ ps) s = ground (arith, starts_with-append ps s)

-- `%u`: the decimal digits, most significant first.
unfoldable pub dec_onto : ℕ → ℕ → Bytes → Bytes
dec_onto zero n acc = acc
dec_onto (suc f) n acc =
    let digit = b'0' + n % 10 in
    let rest = dec_onto f (n / 10) (digit ∷ acc) in if ltb n 10 then digit ∷ acc else rest

unfoldable pub dec : ℕ → Bytes
unfolding dec_onto
dec n = dec_onto (suc n) n []
