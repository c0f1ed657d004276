-- ===== src/Npu/Metrics.antt =====
-- `XdnaGemvEngine::evaluate` of src/xdna-gemv-engine.cpp.
pub mod Laws
use xdna_cpp.Base.{ℕ, Bool, if◌then◌else◌}
use xdna_cpp.Base.Double.{Float64, double_zero, max_of}
use xdna_cpp.Base.Loop.{fold_range}
use xdna_cpp.Base.Memory.{Memory}

pub record XdnaKernelMetrics : Type 0 where
  pub latency_us : ℕ
  pub effective_bandwidth_gb_s : ℕ
  pub cosine_similarity : ℕ
  pub max_abs_error : ℕ
  pub active_columns : ℕ
  pub active_tiles : ℕ
  pub hardware_executed : Bool
  pub passed : Bool

-- The variables of the loop.
pub record XdnaSums : Type 0 where
  pub dot_prod : ℕ
  pub norm_act : ℕ
  pub norm_ref : ℕ
  pub max_err : ℕ

abbrev pub no_xdna_sums : XdnaSums
no_xdna_sums = record {
  dot_prod = double_zero;
  norm_act = double_zero;
  norm_ref = double_zero;
  max_err = double_zero;
}

module _ (D : Float64) where
  abbrev pub xdna_round : (actual reference : Memory) → ℕ → XdnaSums → XdnaSums
  xdna_round actual reference i sums =
      let a = D.widen (actual i) in
      let r = D.widen (reference i) in
      record {
        dot_prod = D.add sums.dot_prod (D.mul a r);
        norm_act = D.add sums.norm_act (D.mul a a);
        norm_ref = D.add sums.norm_ref (D.mul r r);
        max_err = max_of D sums.max_err (D.abs (D.sub a r));
      }

  abbrev pub xdna_metrics_of :
      XdnaSums
      → (packed_weight_bytes duration_us : ℕ) → (hardware_executed : Bool) → XdnaKernelMetrics
  xdna_metrics_of sums packed_weight_bytes duration_us hardware_executed =
      let denom = D.mul (D.sqrt sums.norm_act) (D.sqrt sums.norm_ref) in
      let cosine = if D.greater denom D.epsilon then D.div sums.dot_prod denom else double_zero in
      record {
        latency_us = duration_us;
        effective_bandwidth_gb_s =
            if D.greater duration_us double_zero
            then D.div (D.div (D.of_size packed_weight_bytes) (D.mul duration_us D.millionth))
                D.billion
            else double_zero;
        cosine_similarity = cosine;
        max_abs_error = sums.max_err;
        active_columns = 4;
        active_tiles = 16;
        hardware_executed = hardware_executed;
        passed = D.at_least cosine D.threshold;
      }

  unfoldable pub evaluate_xdna :
      (actual reference : Memory) (count packed_weight_bytes duration_us : ℕ)
      (hardware_executed : Bool)
      → XdnaKernelMetrics
  evaluate_xdna actual reference count packed_weight_bytes duration_us hardware_executed =
      xdna_metrics_of (fold_range count 0 (xdna_round actual reference) no_xdna_sums)
        packed_weight_bytes duration_us hardware_executed
