-- ===== src/Engine/Dot/Pair.antt =====
-- The unrolled routine for two rows computes what the routine for one row does, twice.
use xdna_cpp.Base.{ℕ, zero, suc, ◌+◌, ◌/◌, ◌≡◌, refl, ap}
use xdna_cpp.Base.Float.{Float32, float_zero}
use xdna_cpp.Base.Loop.{fold_range}
use xdna_cpp.Base.Memory.{Memory}
use xdna_cpp.Engine.Dot.{dot_q4_0_f32_fast, dot_q4_0_f32_2rows, horizontal_add, accumulate}
use xdna_cpp.Engine.Simd.{Lanes, set1}

-- A loop over a pair of states is two loops.
fold_range_pair {ℓ κ} :
    {S : Type ℓ} {T : Type κ} (f : ℕ → S → S) (g : ℕ → T → T) (n i : ℕ) (s : S) (t : T)
    → fold_range n i (λ b (p : S × T). (f b p.0, g b p.1)) (s, t)
      ≡ (fold_range n i f s, fold_range n i g t)
unfolding fold_range
fold_range_pair f g zero i s t = refl
fold_range_pair f g (suc n) i s t = fold_range_pair f g n (i + 1) (f i s) (g i t)

-- Whatever the arithmetic, two rows at once give the two dot products of the rows alone.
pub dot_q4_0_f32_2rows_lem :
    (F : Float32) (weights x : Memory) (row0 row1 k : ℕ)
    → dot_q4_0_f32_2rows F weights x row0 row1 k
      ≡ (dot_q4_0_f32_fast F weights x row0 k, dot_q4_0_f32_fast F weights x row1 k)
unfolding dot_q4_0_f32_2rows dot_q4_0_f32_fast
dot_q4_0_f32_2rows_lem F weights x row0 row1 k =
    ap (λ (p : Lanes × Lanes). (horizontal_add F p.0, horizontal_add F p.1))
      (fold_range_pair (accumulate F weights x row0) (accumulate F weights x row1) (k / 32) 0
        (set1 float_zero) (set1 float_zero))
