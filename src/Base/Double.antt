-- ===== src/Base/Double.antt =====
-- Arithmetic on `double`. What the machine computes on the 64-bit patterns is a parameter of the model.
use xdna_cpp.Base.Common.{ℕ, Bool, if◌then◌else◌}

pub record Float64 : Type 0 where
  -- `static_cast<double>` of a `float` and of a `std::size_t`
  pub widen : ℕ → ℕ
  pub of_size : ℕ → ℕ
  pub add : ℕ → ℕ → ℕ
  pub sub : ℕ → ℕ → ℕ
  pub mul : ℕ → ℕ → ℕ
  pub div : ℕ → ℕ → ℕ
  pub sqrt : ℕ → ℕ
  pub abs : ℕ → ℕ
  pub greater : ℕ → ℕ → Bool
  pub at_least : ℕ → ℕ → Bool
  -- the literals 1e6, 1e-6, 1e9, 1e-12 and 0.9999
  pub million : ℕ
  pub millionth : ℕ
  pub billion : ℕ
  pub epsilon : ℕ
  pub threshold : ℕ

-- `0.0`
abbrev pub double_zero : ℕ
double_zero = 0

-- `std::max(a, b)`: `a < b ? b : a`
abbrev pub max_of : Float64 → ℕ → ℕ → ℕ
max_of D a b = if D.greater b a then b else a
