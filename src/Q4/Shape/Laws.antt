-- ===== src/Q4/Shape/Laws.antt =====
-- When the checks of a row and of a matrix pass, and that no product in them wraps.
use xdna_cpp.Base.{ℕ, ◌*◌, ◌/◌, ◌%◌, ◌^◌, ◌<◌, ◌≡◌, ◌≢◌, ◌↔◌, ltb, ◌==◌, not, ◌&&◌, arith}
use xdna_cpp.Base.Outcome.{done, thrown}
use xdna_cpp.Base.{zero, suc, if◌then◌else◌}
use xdna_cpp.Base.Word.{u64, size_max}
use native.Mathlib.Nat.{div-lt_iff_lt-mul}
use xdna_cpp.Q4.Shape.{
  row_length, matrix_overflow, encoded_bytes_for_matrix_unchecked, encoded_bytes_for_values,
  validate_row, validate_matrix,
}

-- A row of fewer than 2 ^ 64 values that is whole blocks has 18 bytes for each block, and the
-- overflow check never fires.
pub encoded_bytes_for_values_done :
    (values : ℕ)
    → values < 2 ^ 64
    → values % 32 ≡ 0
    → encoded_bytes_for_values values ≡ done (values / 32 * 18)
unfolding encoded_bytes_for_values
encoded_bytes_for_values_done values h whole = ground arith

pub encoded_bytes_for_values_thrown :
    (values : ℕ) → values % 32 ≢ 0 → encoded_bytes_for_values values ≡ thrown (row_length values)
unfolding encoded_bytes_for_values
encoded_bytes_for_values_thrown values ragged = ground arith

-- For a number of values that is a `size_t`, a row is accepted exactly when that number is a
-- multiple of 32 and its bytes are 18 for each 32 values.
pub validate_row_iff :
    (values bytes : ℕ)
    → values < 2 ^ 64
    → (validate_row values bytes ≡ done tt) ↔ ((values % 32 ≡ 0) × (bytes ≡ values / 32 * 18))
unfolding validate_row
validate_row_iff values bytes h = (λ e. ground arith, λ e. ground arith)

-- The division in the overflow check of a matrix tells exactly whether the product fits.
matrix_guard :
    (rows row_bytes : ℕ)
    → (not (rows == 0) && ltb (size_max / rows) row_bytes) ≡ ltb size_max (rows * row_bytes)
matrix_guard zero row_bytes = ground arith
matrix_guard (suc n) row_bytes =
    ground (arith, div-lt_iff_lt-mul {k = suc n} {x = size_max} {y = row_bytes} (omega arith))

encoded_bytes_for_matrix_unchecked_lem :
    (rows row_bytes : ℕ)
    → encoded_bytes_for_matrix_unchecked rows row_bytes ≡ (
        if ltb size_max (rows * row_bytes)
        then thrown (matrix_overflow rows)
        else done (u64 (rows * row_bytes)))
unfolding encoded_bytes_for_matrix_unchecked
encoded_bytes_for_matrix_unchecked_lem rows row_bytes =
    rw (matrix_guard rows row_bytes) (ground arith)

-- For numbers of rows and values that are `size_t`, a matrix is accepted exactly when its rows are
-- whole blocks, its true size is a `size_t`, and its bytes are that size.
pub validate_matrix_iff :
    (rows values bytes : ℕ)
    → rows < 2 ^ 64
    → values < 2 ^ 64
    → (validate_matrix rows values bytes ≡ done tt)
      ↔ ((values % 32 ≡ 0) × (bytes ≡ rows * (values / 32 * 18)) × (bytes < 2 ^ 64))
unfolding validate_matrix
validate_matrix_iff rows values bytes hr hv = (
  λ e. ground (arith, encoded_bytes_for_matrix_unchecked_lem rows (values / 32 * 18)),
  λ e. ground (arith, encoded_bytes_for_matrix_unchecked_lem rows (values / 32 * 18)),
)
