-- ===== src/Q4/Row/Gemv.antt =====
-- A matrix product is the dot product of each row, written in its place.
use xdna_cpp.Base.{
  ℕ, ◌+◌, ◌*◌, ◌/◌, ◌%◌, ◌<◌, ◌≤◌, ◌^◌, ◌≡◌, refl, Bytes, List, some, length, get_elem?, set,
  length-set, arith,
}
use xdna_cpp.Base.Float.{Float32}
use xdna_cpp.Base.Loop.{for_range_inv}
use xdna_cpp.Base.Outcome.{done}
use xdna_cpp.Base.Store.{get_elem?-set}
use xdna_cpp.Q4.Row.{gemv_round, gemv_checked}
use xdna_cpp.Q4.Row.Dot.{dot_sum, dot_unchecked_done}
use xdna_cpp.Q4.Shape.{Pointer, Operand, require_pointer, validate_activation_count}
use xdna_cpp.Q4.Shape.Laws.{validate_matrix_iff, encoded_bytes_for_values_done}

module _ (F : Float32) {A : Type 0} (kind : Operand) (convert : A → ℕ) (matrix : Bytes)
    (rows values : ℕ) (xs : List A) where
  -- The first `r` outputs are in place, and the buffer has its size.
  record Written (r : ℕ) (out : Pointer ℕ) : Type 0 where
    cells : List ℕ
    points : out ≡ some cells
    same_length : length cells ≡ rows
    computed :
        (k : ℕ)
        → k < r
        → get_elem? cells k ≡ some (dot_sum F convert matrix (k * (values / 32 * 18)) xs values)

  row_fits :
      (r : ℕ)
      → r < rows
      → rows * (values / 32 * 18) ≤ length matrix
      → r * (values / 32 * 18) + values / 32 * 18 ≤ length matrix
  row_fits r h fits = grind arith

  round_Written :
      (r : ℕ) (out : Pointer ℕ)
      → values % 32 ≡ 0
      → values ≤ length xs
      → rows * (values / 32 * 18) ≤ length matrix
      → r < rows
      → Written r out
      → (out' : Pointer ℕ) × (gemv_round F convert
            (some matrix)
            (values / 32 * 18)
            values
            (some xs)
            r
            out
          ≡ done out')
        × Written (r + 1) out'
  unfolding gemv_round
  round_Written r out whole hx fits h w =
      let dot = dot_sum F convert matrix (r * (values / 32 * 18)) xs values in
      (
        some (set w.cells r dot),
        rw
            (
              dot_unchecked_done F convert matrix (r * (values / 32 * 18)) xs values whole
                  (row_fits r h fits) hx,
              w.points,
            )
            (ground (arith, w.same_length)),
        record {
          cells = set w.cells r dot;
          points = refl;
          same_length = rw length-set w.same_length;
          computed =
              λ k p. ground (arith, get_elem?-set w.cells r k dot, w.same_length, w.computed k);
        },
      )

  -- For numbers of rows and values that are `size_t`, whole blocks, a matrix size that is a
  -- `size_t`, and buffers that hold what is passed, the checked matrix product returns: every row's
  -- dot product stands at its index of the output, which keeps its length.
  pub gemv_checked_done :
      (out : List ℕ)
      → rows < 2 ^ 64
      → values < 2 ^ 64
      → values % 32 ≡ 0
      → rows * (values / 32 * 18) < 2 ^ 64
      → rows * (values / 32 * 18) ≤ length matrix
      → values ≤ length xs
      → length out ≡ rows
      → (cells : List ℕ) × (gemv_checked F kind convert
            (some matrix)
            (rows * (values / 32 * 18))
            rows
            values
            (some xs)
            values
            (some out)
            rows
          ≡ done (some cells))
        × (length cells ≡ rows)
        × ((k : ℕ)
            → k < rows
            → get_elem? cells k
              ≡ some (dot_sum F convert matrix (k * (values / 32 * 18)) xs values))
  unfolding gemv_checked require_pointer validate_activation_count
  gemv_checked_done out hrows hvalues whole small fits hx hout =
      let (p, runs, w) =
        for_range_inv Written
          (gemv_round F convert (some matrix) (values / 32 * 18) values (some xs)) rows 0 rows
          (some out) (λ k s a b. round_Written k s whole hx fits b) (omega arith)
          (record {
            cells = out;
            points = refl;
            same_length = hout;
            computed = λ k p. absurd (omega arith);
          }) in
      (
        w.cells,
        ground (
          arith,
          runs,
          w.points,
          validate_matrix_iff rows values (rows * (values / 32 * 18)) hrows hvalues,
          encoded_bytes_for_values_done values hvalues whole,
        ),
        w.same_length,
        w.computed,
      )
