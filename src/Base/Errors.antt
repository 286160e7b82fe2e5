-- ===== src/Base/Errors.antt =====
-- Error results, and a computation that may end in one.
use Prim.Native.Nat.{ℕ}

-- Negative `errno` results and `esp_err_t` codes. `extern` is a code that a callee outside this
-- repository returned.
pub data Errno : Type 0 where
  einval eio etimedout enosys enodev enotsup enoent enospc : Errno
  esp_err_invalid_arg esp_err_no_mem : Errno
  extern : ℕ → Errno

pub data Result {ℓ} (A : Type ℓ) : Type ℓ where
  ok : A → Result A
  err : Errno → Result A

-- A result `int` or `esp_err_t` that carries no value: 0, or a code.
abbrev pub Status : Type 0
Status = Result (Unit {0})
