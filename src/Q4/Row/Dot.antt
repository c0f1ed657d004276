-- ===== src/Q4/Row/Dot.antt =====
-- The nested loops of `dot_unchecked` are one sum over the weights in order.
use mathlib.Core.Path.{ap₂}
use xdna_cpp.Base.{
  ℕ, ◌+◌, ◌*◌, ◌/◌, ◌%◌, ◌<◌, ◌≤◌, ◌^◌, ◌≡◌, sym, ap, ◌∙◌, Bytes, List, none, some, length, arith,
  ◌≢◌, false, ◌⊎◌,
}
use xdna_cpp.Base.Float.{Float32, float_zero}
use xdna_cpp.Base.Loop.{
  for_range, fold_range, for_range_done, fold_range-append, fold_range-from, fold_range_blocks,
}
use xdna_cpp.Base.Outcome.{done, fault}
use xdna_cpp.Q4.Shape.Laws.{validate_row_iff}
use xdna_cpp.Q4.Row.{dot_low_round, dot_high_round, dot_block, dot_unchecked, dot_checked}
use xdna_cpp.Q4.Row.Weight.{
  block_scale, weight, weight_low, weight_high, at-get_or, load_scale, activation, at-activation,
}
use xdna_cpp.Q4.Shape.{
  Invalid, Pointer, Operand, is_null, validate_row, require_pointer, validate_activation_count,
}

module _ (F : Float32) {A : Type 0} (convert : A → ℕ) (row : Bytes) (start : ℕ) (xs : List A) where
  -- One product, added to the sum so far.
  abbrev pub dot_step : ℕ → ℕ → ℕ
  dot_step i sum = F.add sum (F.mul (weight F row start i) (activation convert xs i))

  -- The sum of the products for the first `n` indices, in order, from zero.
  abbrev pub dot_sum : ℕ → ℕ
  dot_sum n = fold_range n 0 dot_step float_zero

  low_round_done :
      (b j sum : ℕ)
      → j < 16
      → start + b * 18 + 18 ≤ length row
      → b * 32 + 32 ≤ length xs
      → dot_low_round F
          (some row)
          start
          (some xs)
          convert
          (start + b * 18 + 2)
          (block_scale row start b)
          (b * 32)
          j
          sum
        ≡ done (dot_step (b * 32 + j) sum)
  unfolding dot_low_round
  low_round_done b j sum h hr hx =
      let (x, reads, converted) =
        at-activation convert {E = Invalid} xs (b * 32 + j) (omega arith) in
      rw (at-get_or {E = Invalid} row (start + b * 18 + 2 + j) (omega arith), reads)
        (ap₂ (λ (w v : ℕ). done (F.add sum (F.mul w v))) (weight_low F row start b j h) converted)

  high_round_done :
      (b j sum : ℕ)
      → j < 16
      → start + b * 18 + 18 ≤ length row
      → b * 32 + 32 ≤ length xs
      → dot_high_round F
          (some row)
          start
          (some xs)
          convert
          (start + b * 18 + 2)
          (block_scale row start b)
          (b * 32)
          j
          sum
        ≡ done (dot_step (b * 32 + 16 + j) sum)
  unfolding dot_high_round
  high_round_done b j sum h hr hx =
      let (x, reads, converted) =
        at-activation convert {E = Invalid} xs (b * 32 + j + 16) (omega arith) in
      let place : b * 32 + j + 16 ≡ b * 32 + 16 + j = omega arith in
      rw (at-get_or {E = Invalid} row (start + b * 18 + 2 + j) (omega arith), reads)
        (ap₂ (λ (w v : ℕ). done (F.add sum (F.mul w v))) (weight_high F row start b j h) converted
          ∙ ap (λ (t : ℕ). done (dot_step t sum)) place)

  -- The 32 products of a block, in order.
  block_step : ℕ → ℕ → ℕ
  block_step b = fold_range 32 (b * 32) dot_step

  block_step_halves :
      (b sum : ℕ)
      → block_step b sum
        ≡ fold_range 16 0
            (λ j. dot_step (b * 32 + 16 + j))
            (fold_range 16 0 (λ j. dot_step (b * 32 + j)) sum)
  unfolding block_step
  block_step_halves b sum =
      fold_range-append dot_step 16 16 (b * 32) sum
      ∙ fold_range-from dot_step 16 (b * 32 + 16) _
      ∙ ap (fold_range 16 0 (λ j. dot_step (b * 32 + 16 + j)))
          (fold_range-from dot_step 16 (b * 32) sum)

  dot_block_done :
      (b sum : ℕ)
      → start + b * 18 + 18 ≤ length row
      → b * 32 + 32 ≤ length xs
      → dot_block F (some row) start (some xs) convert b sum ≡ done (block_step b sum)
  unfolding dot_block
  dot_block_done b sum hr hx =
      let (half, loads, scale) = load_scale row start b (omega arith) in
      rw
        (
          loads,
          scale,
          for_range_done _ (λ j. dot_step (b * 32 + j)) 16 0 sum
              (λ j s p q. low_round_done b j s (omega arith) hr hx),
          for_range_done _ (λ j. dot_step (b * 32 + 16 + j)) 16 0 _
              (λ j s p q. high_round_done b j s (omega arith) hr hx),
        )
        (ap done (sym (block_step_halves b sum)))

  -- `dot_unchecked` on whole blocks that the row and the activations hold.
  pub dot_unchecked_done :
      (n : ℕ)
      → n % 32 ≡ 0
      → start + n / 32 * 18 ≤ length row
      → n ≤ length xs
      → dot_unchecked F (some row) start (some xs) convert n ≡ done (dot_sum n)
  unfolding dot_unchecked
  dot_unchecked_done n whole hr hx =
      let values : n / 32 * 32 ≡ n = omega arith in
      for_range_done _ block_step (n / 32) 0 float_zero
        (λ b s p q. dot_block_done b s (omega arith) (omega arith))
      ∙ ap done (
          unfold block_step in
          fold_range_blocks dot_step 32 (n / 32) 0 float_zero
          ∙ ap (λ (t : ℕ). fold_range t 0 dot_step float_zero) values)

-- A pointer through which `n` elements may be read, or null.
abbrev pub Holds : {A : Type 0} → Pointer A → ℕ → Type 0
Holds none n = Unit
Holds (some xs) n = n ≤ length xs

module _ (F : Float32) {A : Type 0} (kind : Operand) (convert : A → ℕ) where
  -- On whole blocks and on a row and activations that hold them, with the sizes passed as they are,
  -- the checked dot product returns the sum of the decoded weights times the activations, in order
  -- from zero.
  pub dot_checked_done :
      (row : Bytes) (n : ℕ) (xs : List A)
      → n < 2 ^ 64
      → n % 32 ≡ 0
      → n / 32 * 18 ≤ length row
      → n ≤ length xs
      → dot_checked F kind convert (some row) (n / 32 * 18) n (some xs) n
        ≡ done (dot_sum F convert row 0 xs n)
  unfolding dot_checked require_pointer validate_activation_count
  dot_checked_done row n xs h whole hr hx = ground (
    arith,
    validate_row_iff n (n / 32 * 18) h,
    dot_unchecked_done F convert row 0 xs n whole (omega arith) hx,
  )

  -- With no block there is nothing to read.
  dot_unchecked_none :
      (row : Pointer ℕ) (xs : Pointer A) (n : ℕ)
      → n / 32 ≡ 0
      → dot_unchecked F row 0 xs convert n ≡ done float_zero
  unfolding dot_unchecked for_range
  dot_unchecked_none row xs n e = rw e

  dot_unchecked-ne-fault :
      (row : Pointer ℕ) (xs : Pointer A) (n : ℕ)
      → n % 32 ≡ 0
      → Holds row (n / 32 * 18)
      → Holds xs n
      → is_null row ≡ false ⊎ n / 32 ≡ 0
      → is_null xs ≡ false ⊎ n / 32 ≡ 0
      → dot_unchecked F row 0 xs convert n ≢ fault
  unfolding is_null
  dot_unchecked-ne-fault (some row) (some xs) n whole hr hx _ _ =
      ground (arith, dot_unchecked_done F convert row 0 xs n whole (omega arith) hx)
  dot_unchecked-ne-fault none xs n whole hr hx a b = ground (arith, dot_unchecked_none none xs n)
  dot_unchecked-ne-fault (some row) none n whole hr hx a b =
      ground (arith, dot_unchecked_none (some row) none n)

  -- Whatever the pointers and counts passed, where each pointer is null or holds the bytes or
  -- activations that are claimed for it, the checks of a dot product keep it from every read
  -- outside of its buffers or through a null pointer: it returns or throws.
  pub dot_checked-ne-fault :
      (row : Pointer ℕ) (bytes n : ℕ) (xs : Pointer A) (count : ℕ)
      → n < 2 ^ 64
      → Holds row bytes
      → Holds xs count
      → dot_checked F kind convert row bytes n xs count ≢ fault
  unfolding dot_checked require_pointer validate_activation_count validate_row
  dot_checked-ne-fault row bytes n xs count h hr hx =
      ground (arith, dot_unchecked-ne-fault row xs n)
