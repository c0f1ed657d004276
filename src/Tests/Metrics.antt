-- ===== src/Tests/Metrics.antt =====
-- The judgement of results and the staging ring at concrete inputs.
use xdna_cpp.Base.{
  ℕ, ◌≡◌, refl, Bool, false, ◌==◌, if◌then◌else◌, leb, ltb, inl, arith, List, [], ◌∷◌, some,
}
use xdna_cpp.Staging.{Chunk, stage_tensor}
use xdna_cpp.Staging.Chunks.{Tiles, stage_tensor-Tiles}
use xdna_cpp.Base.Double.{Float64}
use xdna_cpp.Base.Memory.{Memory}
use xdna_cpp.Engine.Metrics.{evaluate_kernel}
use xdna_cpp.Npu.Metrics.{evaluate_xdna}
use xdna_cpp.Npu.Metrics.Laws.{Agree, evaluate_kernel-evaluate_xdna, NanLaws, evaluate-nan}

-- 1 is a NaN, and every other result is 2.
abbrev absorb : ℕ → ℕ → ℕ
absorb a b = if a == 1 then 1 else if b == 1 then 1 else 2

abbrev same_nan : ℕ → ℕ
same_nan a = if a == 1 then 1 else 2

abbrev exceeds : ℕ → ℕ → Bool
exceeds a b = if a == 1 then false else ltb b a

abbrev coarse : Float64
coarse = record {
  widen = λ a. a;
  of_size = λ a. a;
  add = absorb;
  sub = absorb;
  mul = absorb;
  div = absorb;
  sqrt = same_nan;
  abs = same_nan;
  greater = exceeds;
  at_least = λ a b. leb b a;
  million = 6;
  millionth = 3;
  billion = 9;
  epsilon = 0;
  threshold = 2;
}

abbrev IsOne : ℕ → Type 0
IsOne a = a ≡ 1

coarse-NanLaws : NanLaws coarse IsOne
coarse-NanLaws = record {
  add_left = λ a b h. ground (arith, h);
  add_right = λ a b h. ground (arith, h);
  mul_left = λ a b h. ground (arith, h);
  mul_right = λ a b h. ground (arith, h);
  sqrt_nan = λ a h. ground (arith, h);
  not_greater = λ a b h. ground (arith, h);
  zero_fails = refl;
}

-- The second value is a NaN.
abbrev spoiled : Memory
spoiled i = if i == 1 then 1 else 4

abbrev fours : Memory
fours i = 4

evaluate-nan_example :
    ((evaluate_kernel coarse spoiled fours 3 54 7).passed ≡ false)
    × ((evaluate_xdna coarse spoiled fours 3 54 7 false).passed ≡ false)
evaluate-nan_example =
    evaluate-nan coarse IsOne coarse-NanLaws spoiled fours 3 1 54 7 false (omega arith) (inl refl)

evaluate_kernel-evaluate_xdna_example :
    Agree
      (evaluate_kernel coarse fours fours 3 54 7)
      (evaluate_xdna coarse fours fours 3 54 7 false)
evaluate_kernel-evaluate_xdna_example =
    evaluate_kernel-evaluate_xdna coarse fours fours 3 54 7 false

stage_tensor-Tiles_example :
    (chunks : List Chunk) × (last : ℕ) × (stage_tensor 4000 9000 9000 0 0 ≡ some (chunks, last))
    × Tiles 4000 9000 0 0 chunks
stage_tensor-Tiles_example =
    stage_tensor-Tiles 4000 9000 9000 0 0 (omega arith) (omega arith) (omega arith)

-- A tensor of three rows through a ring of 4000 bytes: two of the rows are computed.
lost_row_test :
    stage_tensor 4000 8640 4 0 0
    ≡ some (
      record { buffer = 0; offset = 0; size = 4000; rows = 1 }
          ∷ record { buffer = 1; offset = 4000; size = 4000; rows = 1 }
          ∷ record { buffer = 0; offset = 8000; size = 640; rows = 0 }
          ∷ [],
      1,
    )
unfolding stage_tensor
lost_row_test = refl
