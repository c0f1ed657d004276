-- ===== src/Q4/Row.antt =====
-- Dequantization, dot product and GEMV of src/xdna-q4-0-reference.cpp. A pointer reads the list
-- that it points to; outside that list, and through null, a read or a write is a fault.
pub mod Weight
pub mod Dot
pub mod Dequantize
pub mod Gemv
use xdna_cpp.Base.{
  ℕ, ◌+◌, ◌*◌, ◌/◌, Bool, true, false, not, ltb, ◌==◌, Bytes, List, Option, none, some, set, length,
  bit_and, bit_or, if◌then◌else◌,
}
use xdna_cpp.Base.Float.{Float32, float_zero}
use xdna_cpp.Base.Int.{pos, ◌-ℤ◌}
use xdna_cpp.Base.Loop.{for_range}
use xdna_cpp.Base.Outcome.{Outcome, done, thrown, fault, ◌>>=◌, ◌>>◌, throw_if, at}
use xdna_cpp.Base.Word.{u16, shl, shr}
use xdna_cpp.Q4.Float.{fp16_to_float, bf16_to_float}
use xdna_cpp.Q4.Shape.{
  Result, Pointer, Operand, encoded_row, encoded_matrix, output, float_activation, bf16_activation,
  gemv_output, output_length, values_per_block, packed_bytes_per_block, encoded_bytes_per_block,
  require_pointer, validate_row, validate_matrix, validate_activation_count,
  encoded_bytes_for_values,
}

-- `p[i]` and `p[i] = v`
abbrev pub load : {A : Type 0} → Pointer A → ℕ → Result A
load none i = fault
load (some xs) i = at xs i

abbrev pub store : {A : Type 0} → Pointer A → ℕ → A → Result (Pointer A)
store none i v = fault
store (some xs) i v = if ltb i (length xs) then done (some (set xs i v)) else fault

pub load_little_endian_u16 : Pointer ℕ → ℕ → Result ℕ
load_little_endian_u16 bytes offset = do
  low ← load bytes offset
  high ← load bytes (offset + 1)
  done (u16 (bit_or low (shl high 8)))

module _ (F : Float32) where
  -- The value of the low and of the high nibble of a packed byte, times the scale.
  pub low_value : ℕ → ℕ → ℕ
  low_value q d = F.mul (F.of_int (pos (bit_and q 0x0f) -ℤ pos 8)) d

  pub high_value : ℕ → ℕ → ℕ
  high_value q d = F.mul (F.of_int (pos (shr q 4) -ℤ pos 8)) d

  module _ {Activation : Type 0} (row : Pointer ℕ) (row_offset : ℕ)
      (activations : Pointer Activation) (convert : Activation → ℕ) where
    -- The bodies of the two inner loops of `dot_unchecked`, for a block with its nibbles at `qs`.
    pub dot_low_round : (qs d value_offset j sum : ℕ) → Result ℕ
    dot_low_round qs d value_offset j sum = do
      q ← load row (qs + j)
      x ← load activations (value_offset + j)
      done (F.add sum (F.mul (low_value q d) (convert x)))

    pub dot_high_round : (qs d value_offset j sum : ℕ) → Result ℕ
    dot_high_round qs d value_offset j sum = do
      q ← load row (qs + j)
      x ← load activations (value_offset + j + packed_bytes_per_block)
      done (F.add sum (F.mul (high_value q d) (convert x)))

    -- One block: the first 16 values, then the second 16.
    pub dot_block : ℕ → ℕ → Result ℕ
    dot_block block_index sum = do
      let block = row_offset + block_index * encoded_bytes_per_block
      half ← load_little_endian_u16 row block
      let d = fp16_to_float half
      let qs = block + 2
      let value_offset = block_index * values_per_block
      first ← for_range packed_bytes_per_block 0 (dot_low_round qs d value_offset) sum
      for_range packed_bytes_per_block 0 (dot_high_round qs d value_offset) first

    -- The row starts `row_offset` bytes behind the pointer.
    pub dot_unchecked : ℕ → Result ℕ
    dot_unchecked value_count = for_range (value_count / values_per_block) 0 dot_block float_zero

  -- The body of the inner loop of `dequantize_row`.
  pub dequantize_round : Pointer ℕ → (qs d value_offset j : ℕ) → Pointer ℕ → Result (Pointer ℕ)
  dequantize_round row qs d value_offset j out = do
    q ← load row (qs + j)
    out' ← store out (value_offset + j) (low_value q d)
    store out' (value_offset + j + packed_bytes_per_block) (high_value q d)

  -- One block of `dequantize_row`.
  pub dequantize_block : Pointer ℕ → ℕ → Pointer ℕ → Result (Pointer ℕ)
  dequantize_block row block_index out = do
    let block = block_index * encoded_bytes_per_block
    half ← load_little_endian_u16 row block
    let d = fp16_to_float half
    let qs = block + 2
    let value_offset = block_index * values_per_block
    for_range packed_bytes_per_block 0 (dequantize_round row qs d value_offset) out

  pub dequantize_row : Pointer ℕ → ℕ → ℕ → Pointer ℕ → Result (Pointer ℕ)
  dequantize_row row encoded_byte_count value_count out = do
    validate_row value_count encoded_byte_count
    require_pointer row encoded_byte_count encoded_row
    require_pointer out value_count output
    for_range (value_count / values_per_block) 0 (dequantize_block row) out

  -- `dot_f32` and `dot_bf16` differ in the conversion and in the name that a check prints.
  pub dot_checked :
      {Activation : Type 0}
      → Operand
      → (Activation → ℕ)
      → Pointer ℕ
      → ℕ
      → ℕ
      → Pointer Activation
      → ℕ
      → Result ℕ
  dot_checked kind convert row encoded_byte_count value_count activations activation_count = do
    validate_row value_count encoded_byte_count
    validate_activation_count value_count activation_count kind
    require_pointer row encoded_byte_count encoded_row
    require_pointer activations activation_count kind
    dot_unchecked row 0 activations convert value_count

  unfoldable pub dot_f32 : Pointer ℕ → ℕ → ℕ → Pointer ℕ → ℕ → Result ℕ
  unfolding dot_checked
  dot_f32 = dot_checked float_activation (λ x. x)

  unfoldable pub dot_bf16 : Pointer ℕ → ℕ → ℕ → Pointer ℕ → ℕ → Result ℕ
  unfolding dot_checked
  dot_bf16 = dot_checked bf16_activation bf16_to_float

  -- One row of a matrix product.
  pub gemv_round :
      {Activation : Type 0}
      → (Activation → ℕ)
      → Pointer ℕ
      → ℕ
      → ℕ
      → Pointer Activation
      → ℕ
      → Pointer ℕ
      → Result (Pointer ℕ)
  gemv_round convert matrix row_byte_count values_per_row activations row out = do
    dot ← dot_unchecked matrix (row * row_byte_count) activations convert values_per_row
    store out row dot

  -- `gemv_f32` and `gemv_bf16`, in the same way.
  pub gemv_checked :
      {Activation : Type 0}
      → Operand
      → (Activation → ℕ)
      → Pointer ℕ
      → ℕ
      → ℕ
      → ℕ
      → Pointer Activation
      → ℕ
      → Pointer ℕ
      → ℕ
      → Result (Pointer ℕ)
  gemv_checked kind convert matrix byte_count row_count values_per_row activations activation_count
        out output_count =
      do
        validate_matrix row_count values_per_row byte_count
        validate_activation_count values_per_row activation_count kind
        throw_if (not (output_count == row_count)) (output_length row_count output_count)
        require_pointer matrix byte_count encoded_matrix
        require_pointer activations activation_count kind
        require_pointer out output_count gemv_output
        row_byte_count ← encoded_bytes_for_values values_per_row
        for_range row_count 0 (gemv_round convert matrix row_byte_count values_per_row activations)
            out

  unfoldable pub gemv_f32 :
      Pointer ℕ → ℕ → ℕ → ℕ → Pointer ℕ → ℕ → Pointer ℕ → ℕ → Result (Pointer ℕ)
  unfolding gemv_checked
  gemv_f32 = gemv_checked float_activation (λ x. x)

  unfoldable pub gemv_bf16 :
      Pointer ℕ → ℕ → ℕ → ℕ → Pointer ℕ → ℕ → Pointer ℕ → ℕ → Result (Pointer ℕ)
  unfolding gemv_checked
  gemv_bf16 = gemv_checked bf16_activation bf16_to_float
