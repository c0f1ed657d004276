-- ===== src/Engine/Run/Laws.antt =====
-- Both paths of `run` leave the same output: the dot product of each row, and nothing else.
use xdna_cpp.Base.{
  ℕ, zero, suc, ◌+◌, ◌*◌, ◌/◌, ◌^◌, ◌<◌, ◌≤◌, ◌≡◌, Bool, true, false, List, [], ◌∷◌, ltb, leb, ◌||◌,
  ◌&&◌, if◌then◌else◌, ◌==◌, arith, Bool-cases, inl, inr,
}
use xdna_cpp.Base.Float.{Float32}
use xdna_cpp.Base.Memory.{Memory}
use xdna_cpp.Base.Outcome.{done, thrown}
use xdna_cpp.Base.Word.{u64}
use xdna_cpp.Engine.Dot.{dot_q4_0_f32_fast}
use xdna_cpp.Engine.Dot.Pair.{dot_q4_0_f32_2rows_lem}
use xdna_cpp.Engine.Run.{
  weights_too_small, bytes_per_row, write_single, write_pair, pair_loop, run_small, parallel_body,
  run_parallel, run,
}

-- Iteration `p` is in the order.
abbrev pub contains : ℕ → List ℕ → Bool
contains p [] = false
contains p (q ∷ order) = p == q || contains p order

-- The iterations of an order are those of the loop over `n` rows.
abbrev pub AllBelow : ℕ → List ℕ → Type 0
AllBelow n [] = Unit
AllBelow n (p ∷ order) = (p * 2 < n) × AllBelow n order

module _ (F : Float32) (weights activations : Memory) (n k : ℕ) where
  -- The dot product of row `r`.
  abbrev pub row_dot : ℕ → ℕ
  row_dot r = dot_q4_0_f32_fast F weights activations (r * bytes_per_row k) k

  write_pair_lem :
      (r i : ℕ) (out : Memory)
      → write_pair F weights activations n k r out i
        ≡ (if i == r || i == r + 1 then row_dot i else out i)
  unfolding write_pair
  write_pair_lem r i out = rw dot_q4_0_f32_2rows_lem (ground arith)

  -- The pairs from row `r` on: the loop ends behind the last whole pair, and has written each row
  -- from `r` up to there.
  pair_loop_lem :
      (fuel r i : ℕ) (out : Memory)
      → r ≤ n
      → n ≤ r + fuel
      → (n ≤ (pair_loop F weights activations n k fuel r out).0 + 1)
        × (r ≤ (pair_loop F weights activations n k fuel r out).0)
        × ((pair_loop F weights activations n k fuel r out).0 ≤ n)
        × ((pair_loop F weights activations n k fuel r out).1 i ≡ (
            if leb r i && ltb i (pair_loop F weights activations n k fuel r out).0
            then row_dot i
            else out i))
  unfolding pair_loop
  pair_loop_lem zero r i out hr h = ground arith
  pair_loop_lem (suc fuel) r i out hr h = ground (
    arith,
    write_pair_lem r i out,
    pair_loop_lem fuel (r + 2) i (write_pair F weights activations n k r out),
  )

  -- What both paths leave at index `i`.
  abbrev pub written : Memory → ℕ → ℕ
  written out i = if ltb i n then row_dot i else out i

  run_small_lem : (out : Memory) (i : ℕ) → run_small F weights activations n k out i ≡ written out i
  unfolding run_small write_single
  run_small_lem out i = ground (arith, pair_loop_lem n 0 i out)

  parallel_body_lem :
      (p i : ℕ) (out : Memory)
      → p * 2 < n
      → parallel_body F weights activations n k (p * 2) out i
        ≡ (if ltb i n && i / 2 == p then row_dot i else out i)
  unfolding parallel_body write_single
  parallel_body_lem p i out h = ground (arith, write_pair_lem (p * 2) i out)

  -- Whatever order the iterations run in, a row is written once its iteration is in the order.
  run_parallel_lem :
      (order : List ℕ) (i : ℕ) (out : Memory)
      → AllBelow n order
      → run_parallel F weights activations n k order out i
        ≡ (if ltb i n && contains (i / 2) order then row_dot i else out i)
  unfolding run_parallel
  run_parallel_lem [] i out h = ground arith
  run_parallel_lem (p ∷ order) i out (hp, h) = ground (
    arith,
    parallel_body_lem p i out hp,
    run_parallel_lem order i (parallel_body F weights activations n k (p * 2) out) h,
  )

  -- What `run` leaves where its guard lets it pass.
  pub run_passes :
      (weight_bytes : ℕ) (order : List ℕ) (out : Memory)
      → u64 (n * bytes_per_row k) ≤ weight_bytes
      → AllBelow n order
      → ((p : ℕ) → p * 2 < n → contains p order ≡ true)
      → (result : Memory) × (run F weights activations n k weight_bytes order out ≡ done result)
        × ((i : ℕ) → result i ≡ written out i)
  unfolding run
  run_passes weight_bytes order out fits below covers = elim (Bool-cases (leb n 256)) [
    | inl small ↦ (run_small F weights activations n k out, ground arith, run_small_lem out)
    | inr large ↦ (
      run_parallel F weights activations n k order out,
      ground arith,
      λ i. ground (arith, run_parallel_lem order i out below, covers (i / 2)),
    )
  ]

  -- Where the weight buffer has at least `n * bytes_per_row k` bytes, and the order of the parallel
  -- iterations has each iteration below `n` rows and no other, `run` returns: on the single-
  -- threaded and on the parallel path each of the first `n` outputs is the dot product of its row,
  -- and the rest of the output is as it was.
  pub run_done :
      (weight_bytes : ℕ) (order : List ℕ) (out : Memory)
      → n * bytes_per_row k ≤ weight_bytes
      → AllBelow n order
      → ((p : ℕ) → p * 2 < n → contains p order ≡ true)
      → (result : Memory) × (run F weights activations n k weight_bytes order out ≡ done result)
        × ((i : ℕ) → result i ≡ written out i)
  run_done weight_bytes order out fits below covers =
      run_passes weight_bytes order out (omega (arith, fits)) below covers

-- A weight buffer below the matrix's size is refused, whatever the matrix, as long as that size is
-- itself a `size_t`.
pub run_too_small :
    (F : Float32) (weights activations : Memory) (n k weight_bytes : ℕ) (order : List ℕ)
    (out : Memory)
    → n * bytes_per_row k < 2 ^ 64
    → weight_bytes < n * bytes_per_row k
    → run F weights activations n k weight_bytes order out ≡ thrown weights_too_small
unfolding run
run_too_small F weights activations n k weight_bytes order out h small = ground arith
