-- ===== src/Q4/Row/Dequantize.antt =====
-- `dequantize_row` writes the weight of each index.
use xdna_cpp.Base.{
  ℕ, ◌+◌, ◌*◌, ◌/◌, ◌%◌, ◌<◌, ◌≤◌, ◌^◌, ◌≡◌, refl, Bytes, List, some, length, get_elem?, set,
  length-set, arith, Bool, ◌||◌, ◌&&◌, ltb, leb, if◌then◌else◌, ◌∙◌,
}
use xdna_cpp.Base.Float.{Float32}
use xdna_cpp.Base.Loop.{for_range_inv}
use xdna_cpp.Base.Outcome.{done}
use xdna_cpp.Base.Store.{get_elem?-set}
use xdna_cpp.Q4.Row.{dequantize_round, dequantize_block, dequantize_row}
use xdna_cpp.Q4.Row.Weight.{block_scale, weight, weight_low, weight_high, at-get_or, load_scale}
use xdna_cpp.Q4.Shape.{Invalid, Pointer, require_pointer}
use xdna_cpp.Q4.Shape.Laws.{validate_row_iff}

-- Index `i` has its value after `j` rounds of block `b`.
abbrev pub is_written : ℕ → ℕ → ℕ → Bool
is_written b j i = ltb i (b * 32 + j) || (leb (b * 32 + 16) i && ltb i (b * 32 + 16 + j))

-- The written indices hold `w`, the others what `before` held.
record Holding (w : ℕ → ℕ) (before : List ℕ) (b j : ℕ) (out : Pointer ℕ) : Type 0 where
  cells : List ℕ
  points : out ≡ some cells
  same_length : length cells ≡ length before
  content :
      (i : ℕ) → get_elem? cells i ≡ (if is_written b j i then some (w i) else get_elem? before i)

-- The two writes of a round.
write_pair :
    (w : ℕ → ℕ) (before : List ℕ) (b j : ℕ) (out : Pointer ℕ)
    → j < 16
    → b * 32 + 32 ≤ length before
    → (h : Holding w before b j out)
    → Holding w before b (j + 1) (
        some
          (set (set h.cells (b * 32 + j) (w (b * 32 + j))) (b * 32 + j + 16) (w (b * 32 + j + 16))))
write_pair w before b j out hj fits h =
    let first = set h.cells (b * 32 + j) (w (b * 32 + j)) in
    let size : length first ≡ length before = length-set h.cells _ _ ∙ h.same_length in
    record {
      cells = set first (b * 32 + j + 16) (w (b * 32 + j + 16));
      points = refl;
      same_length = rw length-set size;
      content = λ i. ground (
        arith,
        h.same_length,
        size,
        h.content i,
        get_elem?-set h.cells (b * 32 + j) i (w (b * 32 + j)),
        get_elem?-set first (b * 32 + j + 16) i (w (b * 32 + j + 16)),
      );
    }

-- The end of one block is the start of the next.
next_block :
    (w : ℕ → ℕ) (before : List ℕ) (b : ℕ) (out : Pointer ℕ)
    → Holding w before b 16 out
    → Holding w before (b + 1) 0 out
next_block w before b out h = record {
  cells = h.cells;
  points = h.points;
  same_length = h.same_length;
  content = λ i. ground (arith, h.content i);
}

module _ (F : Float32) (row : Bytes) (before : List ℕ) where
  abbrev Filled : ℕ → ℕ → Pointer ℕ → Type 0
  Filled = Holding (weight F row 0) before

  round_Filled :
      (b j : ℕ) (out : Pointer ℕ)
      → j < 16
      → b * 18 + 18 ≤ length row
      → b * 32 + 32 ≤ length before
      → Filled b j out
      → (out' : Pointer ℕ) × (dequantize_round F
            (some row)
            (b * 18 + 2)
            (block_scale row 0 b)
            (b * 32)
            j
            out
          ≡ done out')
        × Filled b (j + 1) out'
  unfolding dequantize_round
  round_Filled b j out hj hr fits h =
      let start : 0 + b * 18 ≡ b * 18 = omega arith in
      let low = rw start at (weight_low F row 0 b j hj) in
      let high = rw start at (weight_high F row 0 b j hj) in
      (
        some (
            set (set h.cells (b * 32 + j) (weight F row 0 (b * 32 + j))) (b * 32 + j + 16)
              (weight F row 0 (b * 32 + j + 16))),
        rw (h.points, at-get_or {E = Invalid} row (b * 18 + 2 + j) (omega arith), start, low, high)
            (ground (
              arith,
              h.same_length,
              length-set h.cells (b * 32 + j) (weight F row 0 (b * 32 + j)),
            )),
        write_pair (weight F row 0) before b j out hj fits h,
      )

  block_Filled :
      (b : ℕ) (out : Pointer ℕ)
      → b * 18 + 18 ≤ length row
      → b * 32 + 32 ≤ length before
      → Filled b 0 out
      → (out' : Pointer ℕ) × (dequantize_block F (some row) b out ≡ done out')
        × Filled (b + 1) 0 out'
  unfolding dequantize_block
  block_Filled b out hr fits h =
      let (out', runs, filled) =
        for_range_inv (Filled b)
          (dequantize_round F (some row) (b * 18 + 2) (block_scale row 0 b) (b * 32)) 16 0 16 out
          (λ j s p q. round_Filled b j s q hr fits) (omega arith) h in
      let start : 0 + b * 18 ≡ b * 18 = omega arith in
      let (half, loads, scale) = load_scale row 0 b (omega arith) in
      (out', rw (rw start at loads, scale) runs, next_block (weight F row 0) before b out' filled)

  -- On whole blocks, with a row and an output that hold them, `dequantize_row` returns: the first
  -- `n` outputs are the weights of the row in order, the rest of the output is as it was, and so is
  -- its length.
  pub dequantize_row_done :
      (n : ℕ)
      → n < 2 ^ 64
      → n % 32 ≡ 0
      → n / 32 * 18 ≤ length row
      → n ≤ length before
      → (cells : List ℕ) × (dequantize_row F (some row) (n / 32 * 18) n (some before)
          ≡ done (some cells))
        × (length cells ≡ length before)
        × ((i : ℕ)
            → get_elem? cells i ≡ (if ltb i n then some (weight F row 0 i) else get_elem? before i))
  unfolding dequantize_row require_pointer
  dequantize_row_done n h whole hr fits =
      let (out, runs, filled) =
        for_range_inv (λ b. Filled b 0) (dequantize_block F (some row)) (n / 32) 0 (n / 32)
          (some before) (λ b s p q. block_Filled b s (omega arith) (omega arith)) (omega arith)
          (record {
            cells = before;
            points = refl;
            same_length = refl;
            content = λ i. ground arith;
          }) in
      (
        filled.cells,
        ground (arith, validate_row_iff n (n / 32 * 18) h, runs, filled.points),
        filled.same_length,
        λ i. ground (arith, filled.content i),
      )
