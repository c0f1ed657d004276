-- ===== src/Engine/Metrics.antt =====
-- `Q4GemvEngine::evaluate` of src/cpu-q4-gemv-engine.cpp.
use xdna_cpp.Base.{ℕ, Bool, if◌then◌else◌}
use xdna_cpp.Base.Double.{Float64, double_zero, max_of}
use xdna_cpp.Base.Loop.{fold_range}
use xdna_cpp.Base.Memory.{Memory}

pub record KernelMetrics : Type 0 where
  pub latency_us : ℕ
  pub throughput_tok_s : ℕ
  pub effective_bandwidth_gb_s : ℕ
  pub max_abs_error : ℕ
  pub mean_abs_error : ℕ
  pub relative_l2_error : ℕ
  pub cosine_similarity : ℕ
  pub passed : Bool

-- The variables of the loop.
pub record KernelSums : Type 0 where
  pub dot : ℕ
  pub n_act : ℕ
  pub n_ref : ℕ
  pub l2_diff : ℕ
  pub abs_sum : ℕ
  pub max_err : ℕ

abbrev pub no_sums : KernelSums
no_sums = record {
  dot = double_zero;
  n_act = double_zero;
  n_ref = double_zero;
  l2_diff = double_zero;
  abs_sum = double_zero;
  max_err = double_zero;
}

module _ (D : Float64) where
  -- `denom > 1e-12 ? dot / denom : 0.0`
  abbrev pub cosine_of : (dot denom : ℕ) → ℕ
  cosine_of dot denom = if D.greater denom D.epsilon then D.div dot denom else double_zero

  module _ (actual reference : Memory) where
    abbrev pub sum_round : ℕ → KernelSums → KernelSums
    sum_round i sums =
        let a = D.widen (actual i) in
        let r = D.widen (reference i) in
        let diff = D.abs (D.sub a r) in
        record {
          dot = D.add sums.dot (D.mul a r);
          n_act = D.add sums.n_act (D.mul a a);
          n_ref = D.add sums.n_ref (D.mul r r);
          l2_diff = D.add sums.l2_diff (D.mul (D.sub a r) (D.sub a r));
          abs_sum = D.add sums.abs_sum diff;
          max_err = max_of D sums.max_err diff;
        }

    abbrev pub sums_of : (count : ℕ) → KernelSums
    sums_of count = fold_range count 0 sum_round no_sums

  abbrev pub metrics_of : KernelSums → (count weight_bytes duration_us : ℕ) → KernelMetrics
  metrics_of sums count weight_bytes duration_us =
      let timed = D.greater duration_us double_zero in
      let cosine = cosine_of sums.dot (D.mul (D.sqrt sums.n_act) (D.sqrt sums.n_ref)) in
      record {
        latency_us = duration_us;
        throughput_tok_s = if timed then D.div D.million duration_us else double_zero;
        effective_bandwidth_gb_s =
            if timed
            then D.div (D.div (D.of_size weight_bytes) (D.mul duration_us D.millionth)) D.billion
            else double_zero;
        max_abs_error = sums.max_err;
        mean_abs_error = D.div sums.abs_sum (D.of_size count);
        relative_l2_error =
            if D.greater sums.n_ref D.epsilon
            then D.sqrt (D.div sums.l2_diff sums.n_ref)
            else double_zero;
        cosine_similarity = cosine;
        passed = D.at_least cosine D.threshold;
      }

  unfoldable pub evaluate_kernel :
      (actual reference : Memory) (count weight_bytes duration_us : ℕ) → KernelMetrics
  evaluate_kernel actual reference count weight_bytes duration_us =
      metrics_of (sums_of actual reference count) count weight_bytes duration_us
