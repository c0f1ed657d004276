-- ===== src/Tests/Reference.antt =====
-- The Q4_0 reference at concrete inputs.
use xdna_cpp.Base.{
  ℕ, ◌*◌, ◌/◌, ◌%◌, ◌^◌, ◌<◌, ◌≤◌, ◌≡◌, ◌≢◌, ◌↔◌, refl, List, some, length, replicate, get_elem?,
  arith, ltb, if◌then◌else◌, ◌++◌, [], ◌∷◌,
}
use xdna_cpp.Base.Outcome.{done, fault}
use xdna_cpp.Q4.Float.{fp16_to_float, bf16_to_float, float_to_bf16}
use xdna_cpp.Q4.Float.Exact.{
  half_magnitude, single_magnitude, fp16_to_float_exact, fp16_to_float_special,
}
use xdna_cpp.Q4.Float.Rounding.{
  distance, float_to_bf16_nearest, float_to_bf16-bf16_to_float, float_to_bf16_nan_to_zero,
}
use xdna_cpp.Q4.Row.{dot_checked, dequantize_row, gemv_checked}
use xdna_cpp.Q4.Row.Dot.{dot_sum, dot_checked-ne-fault, dot_checked_done}
use xdna_cpp.Q4.Row.Dequantize.{dequantize_row_done}
use xdna_cpp.Q4.Row.Gemv.{gemv_checked_done}
use xdna_cpp.Q4.Row.Weight.{weight}
use xdna_cpp.Q4.Shape.{float_activation, validate_matrix}
use xdna_cpp.Q4.Shape.Laws.{validate_matrix_iff}
use xdna_cpp.Tests.Data.{plain_numbers, one_block, activations}

-- The smallest subnormal.
fp16_to_float_exact_example :
    (single_magnitude (fp16_to_float 0x8001) ≡ half_magnitude 0x8001 * 2 ^ 125)
    × (fp16_to_float 0x8001 / 2 ^ 31 ≡ 1)
fp16_to_float_exact_example = fp16_to_float_exact 0x8001 (omega arith) (omega arith)

fp16_to_float_special_example : fp16_to_float 0xfc00 ≡ 0xff800000
fp16_to_float_special_example = fp16_to_float_special 0xfc00 (omega arith) refl

-- Half way between two patterns.
float_to_bf16_nearest_example :
    (float_to_bf16 0x3f818000 < 2 ^ 16)
    × (float_to_bf16 0x3f818000 / 2 ^ 15 ≡ 0)
    × (distance 0x3f818000 (bf16_to_float (float_to_bf16 0x3f818000))
        ≤ distance 0x3f818000 (0x3f81 * 2 ^ 16))
    × (distance 0x3f818000 (bf16_to_float (float_to_bf16 0x3f818000)) ≡ 2 ^ 15
        → float_to_bf16 0x3f818000 % 2 ≡ 0)
float_to_bf16_nearest_example = float_to_bf16_nearest 0x3f818000 0x3f81 (omega arith) (omega arith)

float_to_bf16-bf16_to_float_example : float_to_bf16 (bf16_to_float 0x7fc1) ≡ 0x7fc1
float_to_bf16-bf16_to_float_example = float_to_bf16-bf16_to_float 0x7fc1 (omega arith)

float_to_bf16_nan_to_zero_example : float_to_bf16 0x7fffe000 ≡ 0x8000
float_to_bf16_nan_to_zero_example = float_to_bf16_nan_to_zero 0x7fffe000 (omega arith) (omega arith)

validate_matrix_iff_example :
    (validate_matrix 2 32 36 ≡ done tt)
    ↔ ((32 % 32 ≡ 0) × (36 ≡ 2 * (32 / 32 * 18)) × (36 < 2 ^ 64))
validate_matrix_iff_example = validate_matrix_iff 2 32 36 (omega arith) (omega arith)

-- An activation count that does not match.
dot_checked-ne-fault_example :
    dot_checked plain_numbers float_activation (λ x. x) (some one_block) 18 32 (some activations) 31
    ≢ fault
dot_checked-ne-fault_example =
    dot_checked-ne-fault plain_numbers float_activation (λ x. x) (some one_block) 18 32
      (some activations) 31 (omega arith) (omega arith) (omega arith)

dot_checked_done_example :
    dot_checked plain_numbers float_activation (λ x. x) (some one_block) 18 32 (some activations) 32
    ≡ done (dot_sum plain_numbers (λ x. x) one_block 0 activations 32)
dot_checked_done_example =
    dot_checked_done plain_numbers float_activation (λ x. x) one_block 32 activations (omega arith)
      refl (omega arith) (omega arith)

-- The output is longer than the row.
dequantize_row_done_example :
    (cells : List ℕ) × (dequantize_row plain_numbers (some one_block) 18 32 (some (replicate 33 7))
      ≡ done (some cells))
    × (length cells ≡ 33)
    × ((i : ℕ)
        → get_elem? cells i ≡ (
            if ltb i 32
            then some (weight plain_numbers one_block 0 i)
            else get_elem? (replicate 33 7) i))
dequantize_row_done_example =
    dequantize_row_done plain_numbers one_block (replicate 33 7) 32 (omega arith) refl (omega arith)
      (omega arith)

-- Two equal rows.
gemv_checked_done_example :
    (cells : List ℕ) × (gemv_checked plain_numbers float_activation
        (λ x. x)
        (some (one_block ++ one_block))
        36
        2
        32
        (some activations)
        32
        (some (0 ∷ 0 ∷ []))
        2
      ≡ done (some cells))
    × (length cells ≡ 2)
    × ((k : ℕ)
        → k < 2
        → get_elem? cells k
          ≡ some (
              dot_sum plain_numbers
                (λ x. x)
                (one_block ++ one_block)
                (k * (32 / 32 * 18))
                activations
                32))
gemv_checked_done_example =
    gemv_checked_done plain_numbers float_activation (λ x. x) (one_block ++ one_block) 2 32
      activations (0 ∷ 0 ∷ []) (omega arith) (omega arith) refl (omega arith) (omega arith)
      (omega arith) refl
