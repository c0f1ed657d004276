-- ===== src/Npu/Metrics/Laws.antt =====
-- Both engines judge a result alike, and no result with a NaN passes.
use xdna_cpp.Base.{
  ℕ, zero, suc, ◌+◌, ◌≤◌, ◌<◌, ◌≡◌, refl, sym, subst, ap, ◌∙◌, Bool, false, ◌⊎◌, inl, inr, ◌==◌,
  ==_iff, Bool-cases, arith,
}
use xdna_cpp.Base.Double.{Float64, double_zero}
use xdna_cpp.Base.Loop.{fold_range}
use xdna_cpp.Base.Memory.{Memory}
use xdna_cpp.Engine.Metrics.{
  KernelMetrics, KernelSums, no_sums, sum_round, sums_of, cosine_of, evaluate_kernel,
}
use xdna_cpp.Npu.Metrics.{
  XdnaKernelMetrics, XdnaSums, no_xdna_sums, xdna_round, xdna_metrics_of, evaluate_xdna,
}

-- A view of the state that each round respects is respected by the loop.
fold_range-view :
    {S T : Type 0} (view : S → T) (f : ℕ → S → S) (g : ℕ → T → T)
    → ((i : ℕ) (s : S) → view (f i s) ≡ g i (view s))
    → (n i : ℕ) (s : S) → view (fold_range n i f s) ≡ fold_range n i g (view s)
unfolding fold_range
fold_range-view view f g respects zero i s = refl
fold_range-view view f g respects (suc n) i s =
    fold_range-view view f g respects n (i + 1) (f i s) ∙ ap (fold_range n (i + 1) g) (respects i s)

-- The sums that both loops keep.
abbrev shared : KernelSums → XdnaSums
shared sums = record {
  dot_prod = sums.dot;
  norm_act = sums.n_act;
  norm_ref = sums.n_ref;
  max_err = sums.max_err;
}

-- What both engines report.
abbrev pub Agree : KernelMetrics → XdnaKernelMetrics → Type 0
Agree cpu npu =
    (cpu.cosine_similarity ≡ npu.cosine_similarity)
    × (cpu.max_abs_error ≡ npu.max_abs_error)
    × (cpu.effective_bandwidth_gb_s ≡ npu.effective_bandwidth_gb_s)
    × (cpu.passed ≡ npu.passed)

module _ (D : Float64) (actual reference : Memory) where
  shared_sums :
      (count : ℕ)
      → shared (sums_of D actual reference count)
        ≡ fold_range count 0 (xdna_round D actual reference) no_xdna_sums
  shared_sums count =
      fold_range-view shared (sum_round D actual reference) (xdna_round D actual reference)
        (λ i s. refl) count 0 no_sums

  -- In every arithmetic of `double`, and on the same values, count, weight bytes and duration, the
  -- two engines' `evaluate` report the same cosine similarity, largest error, bandwidth and
  -- verdict.
  pub evaluate_kernel-evaluate_xdna :
      (count weight_bytes duration_us : ℕ) (hardware_executed : Bool)
      → Agree
          (evaluate_kernel D actual reference count weight_bytes duration_us)
          (evaluate_xdna D actual reference count weight_bytes duration_us hardware_executed)
  unfolding evaluate_kernel evaluate_xdna
  evaluate_kernel-evaluate_xdna count weight_bytes duration_us hardware_executed =
      subst
        (λ sums.
          Agree (evaluate_kernel D actual reference count weight_bytes duration_us)
            (xdna_metrics_of D sums weight_bytes duration_us hardware_executed))
        (shared_sums count) (refl, refl, refl, refl)

-- What IEEE 754 says of a NaN: sums, products and roots of it are one, it is not greater than a number; and that 0 is
-- below the threshold.
pub record NanLaws (D : Float64) (IsNan : ℕ → Type 0) : Type 0 where
  pub add_left : (a b : ℕ) → IsNan a → IsNan (D.add a b)
  pub add_right : (a b : ℕ) → IsNan b → IsNan (D.add a b)
  pub mul_left : (a b : ℕ) → IsNan a → IsNan (D.mul a b)
  pub mul_right : (a b : ℕ) → IsNan b → IsNan (D.mul a b)
  pub sqrt_nan : (a : ℕ) → IsNan a → IsNan (D.sqrt a)
  pub not_greater : (a b : ℕ) → IsNan a → D.greater a b ≡ false
  pub zero_fails : D.at_least double_zero D.threshold ≡ false

module _ (D : Float64) (IsNan : ℕ → Type 0) (laws : NanLaws D IsNan)
    (actual reference : Memory) where
  -- A norm is a NaN.
  abbrev Spoiled : KernelSums → Type 0
  Spoiled sums = IsNan sums.n_act ⊎ IsNan sums.n_ref

  abbrev SpoiledAt : ℕ → Type 0
  SpoiledAt i = IsNan (D.widen (actual i)) ⊎ IsNan (D.widen (reference i))

  round-Spoiled :
      (i : ℕ) (sums : KernelSums) → Spoiled sums → Spoiled (sum_round D actual reference i sums)
  round-Spoiled i sums (inl nan) = inl (laws.add_left _ _ nan)
  round-Spoiled i sums (inr nan) = inr (laws.add_left _ _ nan)

  spoil-Spoiled :
      (i : ℕ) (sums : KernelSums) → SpoiledAt i → Spoiled (sum_round D actual reference i sums)
  spoil-Spoiled i sums (inl nan) = inl (laws.add_right _ _ (laws.mul_left _ _ nan))
  spoil-Spoiled i sums (inr nan) = inr (laws.add_right _ _ (laws.mul_left _ _ nan))

  loop-Spoiled :
      (n i : ℕ) (sums : KernelSums)
      → Spoiled sums
      → Spoiled (fold_range n i (sum_round D actual reference) sums)
  unfolding fold_range
  loop-Spoiled zero i sums spoiled = spoiled
  loop-Spoiled (suc n) i sums spoiled =
      loop-Spoiled n (i + 1) (sum_round D actual reference i sums) (round-Spoiled i sums spoiled)

  loop_spoils :
      (n i j : ℕ) (sums : KernelSums)
      → i ≤ j
      → j < i + n
      → SpoiledAt j
      → Spoiled (fold_range n i (sum_round D actual reference) sums)
  unfolding fold_range
  loop_spoils zero i j sums low high spoils = absurd (omega (arith, low, high))
  loop_spoils (suc n) i j sums low high spoils =
      let next = sum_round D actual reference i sums in
      elim (Bool-cases (i == j)) [
        | inl here ↦
            loop-Spoiled n (i + 1) next
              (spoil-Spoiled i sums (subst SpoiledAt (sym ((==_iff i j).0 here)) spoils))
        | inr later ↦
            loop_spoils n (i + 1) j next (ground (arith, low, later)) (omega (arith, high)) spoils
      ]

  fails :
      (sums : KernelSums)
      → Spoiled sums
      → D.at_least
          (cosine_of D sums.dot (D.mul (D.sqrt sums.n_act) (D.sqrt sums.n_ref)))
          D.threshold
        ≡ false
  fails sums (inl nan) =
      rw (laws.not_greater _ D.epsilon (laws.mul_left _ (D.sqrt sums.n_ref) (laws.sqrt_nan _ nan)))
        laws.zero_fails
  fails sums (inr nan) =
      rw (laws.not_greater _ D.epsilon (laws.mul_right (D.sqrt sums.n_act) _ (laws.sqrt_nan _ nan)))
        laws.zero_fails

  -- Where sums, products and roots of a NaN are NaNs, a NaN is not greater than anything, and 0.0
  -- is below the threshold: if one of the `count` values of the result or of the reference is a
  -- NaN, then neither engine's `evaluate` passes.
  pub evaluate-nan :
      (count i weight_bytes duration_us : ℕ) (hardware_executed : Bool)
      → i < count
      → IsNan (D.widen (actual i)) ⊎ IsNan (D.widen (reference i))
      → ((evaluate_kernel D actual reference count weight_bytes duration_us).passed ≡ false)
        × ((evaluate_xdna D actual reference count weight_bytes duration_us
              hardware_executed).passed
            ≡ false)
  unfolding evaluate_kernel
  evaluate-nan count i weight_bytes duration_us hardware_executed inside spoils =
      let cpu =
        fails (sums_of D actual reference count)
          (loop_spoils count 0 i no_sums (omega arith) (omega (arith, inside)) spoils) in
      let agree =
        evaluate_kernel-evaluate_xdna D actual reference count weight_bytes duration_us
          hardware_executed in
      (cpu, sym agree.3 ∙ cpu)
