-- ===== src/Q4/Shape.antt =====
-- The sizes and the argument checks of src/xdna-q4-0-reference.cpp. A `std::size_t` is a number
-- below 2 ^ 64, and an `std::invalid_argument` is a value of `Invalid` with what its text prints.
pub mod Laws
use xdna_cpp.Base.{
  ℕ, ◌+◌, ◌*◌, ◌/◌, ◌%◌, Bool, true, false, not, ◌&&◌, ltb, ◌==◌, if◌then◌else◌, Bytes, List,
  Option, none, some,
}
use xdna_cpp.Base.Outcome.{Outcome, done, thrown, ◌>>=◌, ◌>>◌, throw_if}
use xdna_cpp.Base.Word.{u64, size_max}

abbrev pub values_per_block : ℕ
values_per_block = 32

abbrev pub packed_bytes_per_block : ℕ
packed_bytes_per_block = 16

abbrev pub encoded_bytes_per_block : ℕ
encoded_bytes_per_block = 18

-- Which pointer a check names.
pub data Operand : Type 0 where
  encoded_row encoded_matrix output float_activation bf16_activation gemv_output : Operand

pub data Invalid : Type 0 where
  row_length : (got : ℕ) → Invalid
  row_overflow : (values : ℕ) → Invalid
  matrix_overflow : (rows : ℕ) → Invalid
  row_span : (values expected got : ℕ) → Invalid
  matrix_span : (rows values expected got : ℕ) → Invalid
  activation_length : (kind : Operand) (expected got : ℕ) → Invalid
  output_length : (expected got : ℕ) → Invalid
  null_pointer : Operand → Invalid

abbrev pub Result : Type 0 → Type 0
Result = Outcome Invalid

-- A pointer to the first of the elements that may be read through it; `none` is null.
abbrev pub Pointer : Type 0 → Type 0
Pointer A = Option (List A)

unfoldable pub is_null : {A : Type 0} → Pointer A → Bool
is_null none = true
is_null (some xs) = false

unfoldable pub require_pointer : {A : Type 0} → Pointer A → ℕ → Operand → Result (Unit {0})
unfolding is_null
require_pointer pointer count operand =
    throw_if (not (count == 0) && is_null pointer) (null_pointer operand)

unfoldable pub validate_activation_count : ℕ → ℕ → Operand → Result (Unit {0})
validate_activation_count value_count activation_count kind =
    throw_if (not (value_count == activation_count))
      (activation_length kind value_count activation_count)

pub encoded_bytes_for_values_unchecked : ℕ → Result ℕ
encoded_bytes_for_values_unchecked value_count = do
  let block_count = value_count / values_per_block
  throw_if (ltb (size_max / encoded_bytes_per_block) block_count) (row_overflow value_count)
  done (u64 (block_count * encoded_bytes_per_block))

pub encoded_bytes_for_matrix_unchecked : ℕ → ℕ → Result ℕ
encoded_bytes_for_matrix_unchecked row_count row_byte_count = do
  throw_if (not (row_count == 0) && ltb (size_max / row_count) row_byte_count)
      (matrix_overflow row_count)
  done (u64 (row_count * row_byte_count))

pub encoded_bytes_for_values : ℕ → Result ℕ
unfolding encoded_bytes_for_values_unchecked
encoded_bytes_for_values value_count = do
  throw_if (not (value_count % values_per_block == 0)) (row_length value_count)
  encoded_bytes_for_values_unchecked value_count

unfoldable pub validate_row : ℕ → ℕ → Result (Unit {0})
unfolding encoded_bytes_for_values
validate_row value_count encoded_byte_count = do
  expected ← encoded_bytes_for_values value_count
  throw_if (not (encoded_byte_count == expected)) (row_span value_count expected encoded_byte_count)

pub encoded_bytes_for_matrix : ℕ → ℕ → Result ℕ
unfolding encoded_bytes_for_values
encoded_bytes_for_matrix row_count values_per_row = do
  row_byte_count ← encoded_bytes_for_values values_per_row
  encoded_bytes_for_matrix_unchecked row_count row_byte_count

pub validate_matrix : ℕ → ℕ → ℕ → Result (Unit {0})
unfolding encoded_bytes_for_matrix
validate_matrix row_count values_per_row encoded_byte_count = do
  expected ← encoded_bytes_for_matrix row_count values_per_row
  throw_if (not (encoded_byte_count == expected))
      (matrix_span row_count values_per_row expected encoded_byte_count)
