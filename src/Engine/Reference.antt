-- ===== src/Engine/Reference.antt =====
-- In an exact arithmetic the vector code computes the sum of the scalar reference.
use xdna_cpp.Base.{ℕ, zero, suc, ◌+◌, ◌*◌, ◌/◌, ◌%◌, ◌<◌, ◌≡◌, refl, ap, ◌∙◌, arith, Bytes, List}
use xdna_cpp.Base.Float.{Float32, float_zero}
use xdna_cpp.Base.Loop.{fold_range, fold_range_blocks}
use xdna_cpp.Engine.Dot.{horizontal_add, accumulate, dot_q4_0_f32_fast}
use xdna_cpp.Engine.Dot.Exact.{IsExact, horizontal_add-zero}
use xdna_cpp.Engine.Simd.{Lanes, set1}
use xdna_cpp.Q4.Row.Dot.{dot_step, dot_sum}
use xdna_cpp.Q4.Row.Weight.{byte_at, activation}
use xdna_cpp.Engine.Blocks.{block_same}

module _ (F : Float32) (e : IsExact F) {A : Type 0} (convert : A → ℕ) (row : Bytes) (start : ℕ)
    (xs : List A) (bytes : (a : ℕ) → byte_at row a < 256) where
  blocks_same :
      (n b : ℕ) (acc : Lanes)
      → horizontal_add F
          (fold_range n b (accumulate F (byte_at row) (activation convert xs) start) acc)
        ≡ fold_range n b
            (λ c. fold_range 32 (c * 32) (dot_step F convert row start xs))
            (horizontal_add F acc)
  unfolding fold_range
  blocks_same zero b acc = refl
  blocks_same (suc n) b acc =
      blocks_same n (b + 1) (accumulate F (byte_at row) (activation convert xs) start b acc)
      ∙ ap (fold_range n (b + 1) (λ c. fold_range 32 (c * 32) (dot_step F convert row start xs)))
          (block_same F e convert row start xs bytes b acc)

  -- In an arithmetic without rounding, on a row of bytes and whole blocks of 32 values, the vector
  -- code `dot_q4_0_f32_fast` returns the sum that the scalar reference defines: the products of the
  -- decoded weights with the activations, added in order.
  pub dot_q4_0_f32_fast_reference :
      (n : ℕ)
      → n % 32 ≡ 0
      → dot_q4_0_f32_fast F (byte_at row) (activation convert xs) start n
        ≡ dot_sum F convert row start xs n
  unfolding dot_q4_0_f32_fast
  dot_q4_0_f32_fast_reference n whole =
      let values : n / 32 * 32 ≡ n = omega arith in
      blocks_same (n / 32) 0 (set1 float_zero)
      ∙ ap (fold_range (n / 32) 0 (λ c. fold_range 32 (c * 32) (dot_step F convert row start xs)))
          (horizontal_add-zero F e)
      ∙ fold_range_blocks (dot_step F convert row start xs) 32 (n / 32) 0 float_zero
      ∙ ap (λ (t : ℕ). fold_range t 0 (dot_step F convert row start xs) float_zero) values
