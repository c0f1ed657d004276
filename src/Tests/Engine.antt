-- ===== src/Tests/Engine.antt =====
-- The CPU engine at concrete inputs.
use mathlib.Core.Path.{◌≡◌, refl}
use xdna_cpp.Base.{ℕ, ◌*◌, ◌<◌, [], ◌∷◌, ◌++◌, true, arith}
use xdna_cpp.Base.Memory.{Memory}
use xdna_cpp.Base.Outcome.{done}
use xdna_cpp.Engine.Dot.{dot_q4_0_f32_fast}
use xdna_cpp.Engine.Dot.Exact.{IsExact}
use xdna_cpp.Engine.Reference.{dot_q4_0_f32_fast_reference}
use xdna_cpp.Engine.Run.{run}
use xdna_cpp.Engine.Run.Laws.{contains, written, run_done}
use xdna_cpp.Q4.Row.Dot.{dot_sum}
use xdna_cpp.Q4.Row.Weight.{byte_at, activation}
use xdna_cpp.Tests.Data.{plain_numbers, one_block, activations, byte_at-lt, one_block-AreBytes}

plain_numbers-IsExact : IsExact plain_numbers
plain_numbers-IsExact = record {
  add_comm = λ a b. omega arith;
  add_assoc = λ a b c. omega arith;
  add_zero = λ a. omega arith;
  mul_comm = λ a b. grind arith;
  mul_assoc = λ a b c. grind arith;
  add_mul = λ a b c. grind arith;
  fma-eq = λ a b c. refl;
}

abbrev rows : Memory
rows = byte_at (one_block ++ one_block ++ one_block)

dot_q4_0_f32_fast_reference_example :
    dot_q4_0_f32_fast plain_numbers (byte_at one_block) (activation (λ (x : ℕ). x) activations) 0 32
    ≡ dot_sum plain_numbers (λ x. x) one_block 0 activations 32
dot_q4_0_f32_fast_reference_example =
    dot_q4_0_f32_fast_reference plain_numbers plain_numbers-IsExact (λ x. x) one_block 0 activations
      (byte_at-lt one_block one_block-AreBytes) 32 refl

covers_three : (p : ℕ) → p * 2 < 3 → contains p (1 ∷ 0 ∷ []) ≡ true
covers_three p h = ground arith

-- Three rows, so that one is left behind the pair.
run_done_example :
    (result : Memory) × (run plain_numbers rows (byte_at activations) 3 32 54 (1 ∷ 0 ∷ []) (λ i. 7)
      ≡ done result)
    × ((i : ℕ) → result i ≡ written plain_numbers rows (byte_at activations) 3 32 (λ i. 7) i)
run_done_example =
    run_done plain_numbers rows (byte_at activations) 3 32 54 (1 ∷ 0 ∷ []) (λ i. 7) (omega arith)
      (omega arith, (omega arith, tt)) covers_three
