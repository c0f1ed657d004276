-- ===== src/Engine/Run.antt =====
-- `Q4GemvEngine` of src/cpu-q4-gemv-engine.cpp: the dispatch on the number of rows.
pub mod Laws
use xdna_cpp.Base.{
  ℕ, zero, suc, ◌+◌, ◌*◌, ◌/◌, ◌≤◌, Bool, true, false, List, [], ◌∷◌, ltb, leb, if◌then◌else◌, ◌==◌,
}
use xdna_cpp.Base.Float.{Float32}
use xdna_cpp.Base.Memory.{Memory, update}
use xdna_cpp.Base.Outcome.{Outcome, done, ◌>>=◌, ◌>>◌, throw_if}
use xdna_cpp.Base.Word.{u32, u64}
use xdna_cpp.Engine.Dot.{dot_q4_0_f32_fast, dot_q4_0_f32_2rows}
use xdna_cpp.Q4.Float.{bf16_to_float}

pub data EngineError : Type 0 where
  weights_too_small : EngineError

-- The object: two counts that the constructor replaces by 4 when they are zero, and the workers.
pub record Q4GemvEngine : Type 0 where
  pub num_columns : ℕ
  pub rows_per_col : ℕ
  pub num_workers : ℕ

abbrev or_four : ℕ → ℕ
or_four n = if ltb 0 n then n else 4

unfoldable pub make_engine : (num_columns rows_per_column : ℕ) → Q4GemvEngine
make_engine num_columns rows_per_column =
    let columns = or_four num_columns in
    let rows = or_four rows_per_column in
    record {
      num_columns = columns;
      rows_per_col = rows;
      num_workers = or_four (u32 (columns * rows));
    }

-- `(K / 32) * 18`
abbrev pub bytes_per_row : ℕ → ℕ
bytes_per_row k = u64 (k / 32 * 18)

module _ (F : Float32) (weights activations : Memory) (n k : ℕ) where
  -- `output[r]` alone, and `output[r]` with `output[r + 1]`.
  pub write_single : ℕ → Memory → Memory
  write_single r out =
      update out r (dot_q4_0_f32_fast F weights activations (r * bytes_per_row k) k)

  pub write_pair : ℕ → Memory → Memory
  write_pair r out =
      let dots =
        dot_q4_0_f32_2rows F weights activations (r * bytes_per_row k) ((r + 1) * bytes_per_row k)
          k in
      update (update out r dots.0) (r + 1) dots.1

  -- `for (; r + 1 < N; r += 2)`, on fuel. Half of the rows is fuel enough.
  pub pair_loop : ℕ → ℕ → Memory → ℕ × Memory
  pair_loop zero r out = (r, out)
  pair_loop (suc fuel) r out = elim (ltb (r + 1) n) [
    | true ↦ pair_loop fuel (r + 2) (write_pair r out)
    | false ↦ (r, out)
  ]

  pub run_small : Memory → Memory
  run_small out =
      let (r, pairs) = pair_loop n 0 out in if ltb r n then write_single r pairs else pairs

  -- The body of the parallel loop for row `r`.
  pub parallel_body : ℕ → Memory → Memory
  parallel_body r out = if ltb (r + 1) n then write_pair r out else write_single r out

  -- The order in which the threads take the iterations `r = 2 * p` is the runtime's.
  pub run_parallel : List ℕ → Memory → Memory
  run_parallel [] out = out
  run_parallel (p ∷ order) out = run_parallel order (parallel_body (p * 2) out)

  unfoldable pub run : (weight_bytes : ℕ) → List ℕ → Memory → Outcome EngineError Memory
  run weight_bytes order out = do
    throw_if (ltb weight_bytes (u64 (n * bytes_per_row k))) weights_too_small
    done (if leb n 256 then run_small out else run_parallel order out)

-- The activations are widened into a vector of `k` floats first.
unfoldable pub run_bf16 :
    Float32
    → (weights activations : Memory) → (n k weight_bytes : ℕ) → List ℕ
    → Memory
    → Outcome EngineError Memory
run_bf16 F weights activations n k =
    run F weights (λ i. if ltb i k then bf16_to_float (activations i) else 0) n k
