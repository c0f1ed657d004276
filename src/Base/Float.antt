-- ===== src/Base/Float.antt =====
-- Arithmetic on `float`. A float is its 32-bit pattern; what the machine computes on the patterns is a
-- parameter of the model.
use xdna_cpp.Base.Common.{ℕ}
use xdna_cpp.Base.Int.{ℤ}

pub record Float32 : Type 0 where
  pub mul : ℕ → ℕ → ℕ
  pub add : ℕ → ℕ → ℕ
  -- `a * b + c` with one rounding
  pub fma : ℕ → ℕ → ℕ → ℕ
  -- `static_cast<float>` of an `int`
  pub of_int : ℤ → ℕ

-- `0.0f`
abbrev pub float_zero : ℕ
float_zero = 0
