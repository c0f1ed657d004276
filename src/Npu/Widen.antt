-- ===== src/Npu/Widen.antt =====
-- The persistent buffer of `run_bf16`.
use xdna_cpp.Base.{
  ℕ, zero, suc, ◌+◌, ◌-◌, ◌<◌, ◌≤◌, ◌≡◌, refl, ◌∙◌, List, [], ◌∷◌, ◌++◌, length, set, get_or,
  replicate, length-set, length-append, length-replicate, ltb, leb, ◌&&◌, if◌then◌else◌, ◌==◌,
  arith,
}
use xdna_cpp.Base.Loop.{fold_range}
use xdna_cpp.Base.Memory.{Memory}
use xdna_cpp.Npu.{grown, widen}
use xdna_cpp.Q4.Float.{bf16_to_float}

grown-length :
    (buffer : List ℕ) (k : ℕ)
    → (k ≤ length (grown buffer k)) × (length buffer ≤ length (grown buffer k))
grown-length buffer k = ground (
  arith,
  length-append buffer (replicate (k - length buffer) 0),
  length-replicate {A = ℕ} (k - length buffer) 0,
)

get_or-zeros :
    (buffer : List ℕ) (n j : ℕ) → get_or (buffer ++ replicate n 0) j 0 ≡ get_or buffer j 0
get_or-zeros [] zero j = refl
get_or-zeros [] (suc n) zero = refl
get_or-zeros [] (suc n) (suc j) = get_or-zeros [] n j
get_or-zeros (b ∷ buffer) n zero = refl
get_or-zeros (b ∷ buffer) n (suc j) = get_or-zeros buffer n j

grown-get_or : (buffer : List ℕ) (k j : ℕ) → get_or (grown buffer k) j 0 ≡ get_or buffer j 0
grown-get_or buffer k j = ground (arith, get_or-zeros buffer (k - length buffer) j)

get_or-set :
    (buffer : List ℕ) (i j v : ℕ)
    → i < length buffer
    → get_or (set buffer i v) j 0 ≡ (if i == j then v else get_or buffer j 0)
get_or-set [] i j v h = absurd (omega (arith, h))
get_or-set (b ∷ buffer) zero zero v h = refl
get_or-set (b ∷ buffer) zero (suc j) v h = ground arith
get_or-set (b ∷ buffer) (suc i) zero v h = ground arith
get_or-set (b ∷ buffer) (suc i) (suc j) v h = get_or-set buffer i j v (omega arith) ∙ ground arith

module _ (activations : Memory) where
  fill-get :
      (n i j : ℕ) (buffer : List ℕ)
      → i + n ≤ length buffer
      → get_or
          (fold_range n i (λ k buffer. set buffer k (bf16_to_float (activations k))) buffer)
          j
          0
        ≡ (if leb i j && ltb j (i + n) then bf16_to_float (activations j) else get_or buffer j 0)
  unfolding fold_range
  fill-get zero i j buffer h = ground arith
  fill-get (suc n) i j buffer h = ground (
    arith,
    fill-get n (i + 1) j (set buffer i (bf16_to_float (activations i))),
    length-set buffer i (bf16_to_float (activations i)),
    get_or-set buffer i j (bf16_to_float (activations i)),
  )

  -- After the loop of `run_bf16` the persistent buffer holds the first `k` activations, each
  -- widened, whatever an earlier call left in it and however long it was; behind them it is what it
  -- was, and zero where it has grown.
  pub widen-get_or :
      (k j : ℕ) (buffer : List ℕ)
      → get_or (widen activations k buffer) j 0
        ≡ (if ltb j k then bf16_to_float (activations j) else get_or buffer j 0)
  unfolding widen
  widen-get_or k j buffer =
      ground
        (arith, fill-get k 0 j (grown buffer k), grown-length buffer k, grown-get_or buffer k j)
