-- ===== src/Engine/Dot.antt =====
-- `dot_q4_0_f32_fast` and `dot_q4_0_f32_2rows` of src/cpu-q4-gemv-engine.cpp.
pub mod Pair
pub mod Exact
use xdna_cpp.Base.{ℕ, ◌+◌, ◌*◌, ◌/◌, ◌^◌, bit_or}
use xdna_cpp.Base.Float.{Float32, float_zero}
use xdna_cpp.Base.Loop.{fold_range}
use xdna_cpp.Base.Memory.{Memory}
use xdna_cpp.Engine.Simd.{
  Lanes, loadu_si128, set1, and_si128, srli_epi16, srli_si128, cvtepi8_epi16, cvtepi16_epi32,
  sub_epi16, cvtepi32_ps, mul_ps, add_ps, fmadd_ps, add_ss, castps256_ps128, extractf128_high,
  movehl_ps, shuffle_one,
}
use xdna_cpp.Q4.Float.{fp16_to_float}

-- `blocks[b].d` and the address of `blocks[b].qs`, for blocks of 18 bytes at `row`.
abbrev pub block_scale : Memory → (row b : ℕ) → ℕ
block_scale weights row b =
    fp16_to_float (bit_or (weights (row + b * 18)) (weights (row + b * 18 + 1) * 2 ^ 8))

abbrev pub block_nibbles : Memory → (row b : ℕ) → Lanes
block_nibbles weights row b = loadu_si128 weights (row + b * 18 + 2)

abbrev pub low_nibbles : Lanes → Lanes
low_nibbles raw16 = and_si128 raw16 (set1 0x0f)

abbrev pub high_nibbles : Lanes → Lanes
high_nibbles raw16 = and_si128 (srli_epi16 raw16 4) (set1 0x0f)

module _ (F : Float32) where
  -- Eight nibbles less 8, as floats.
  abbrev pub centred : Lanes → Lanes
  centred nibbles = cvtepi32_ps F (cvtepi16_epi32 (sub_epi16 (cvtepi8_epi16 nibbles) (set1 8)))

  -- Lane sums of the 32 products of one block with the activations at `x`.
  unfoldable pub sum_block : Lanes → Lanes → Lanes
  sum_block raw16 x =
      let low = low_nibbles raw16 in
      let high = high_nibbles raw16 in
      add_ps F
        (add_ps F (mul_ps F (centred low) x)
          (mul_ps F (centred (srli_si128 low 8)) (λ i. x (8 + i))))
        (add_ps F (mul_ps F (centred high) (λ i. x (16 + i)))
          (mul_ps F (centred (srli_si128 high 8)) (λ i. x (24 + i))))

  unfoldable pub horizontal_add : Lanes → ℕ
  horizontal_add acc =
      let h = add_ps F (castps256_ps128 acc) (extractf128_high acc) in
      let h' = add_ps F h (movehl_ps h h) in add_ss F h' (shuffle_one h') 0

  module _ (weights x : Memory) where
    -- One block's part of the loop, for the row at `row`.
    abbrev pub accumulate : (row b : ℕ) → Lanes → Lanes
    accumulate row b acc =
        fmadd_ps F (sum_block (block_nibbles weights row b) (λ i. x (b * 32 + i)))
          (set1 (block_scale weights row b)) acc

    unfoldable pub dot_q4_0_f32_fast : (row k : ℕ) → ℕ
    dot_q4_0_f32_fast row k =
        horizontal_add (fold_range (k / 32) 0 (accumulate row) (set1 float_zero))

    -- The two accumulators side by side.
    pub dot_q4_0_f32_2rows : (row0 row1 k : ℕ) → ℕ × ℕ
    dot_q4_0_f32_2rows row0 row1 k =
        let accs : Lanes × Lanes =
          fold_range (k / 32) 0 (λ b accs. (accumulate row0 b accs.0, accumulate row1 b accs.1))
            (set1 float_zero, set1 float_zero) in
        (horizontal_add accs.0, horizontal_add accs.1)
