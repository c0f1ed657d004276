-- ===== src/Prepack/Layout.antt =====
-- The layout of groups of 32 where nothing wraps, and the default that `pack` misses.
use xdna_cpp.Base.{ℕ, ◌+◌, ◌*◌, ◌/◌, ◌%◌, ◌^◌, ◌<◌, ◌≡◌, refl, arith}
use xdna_cpp.Base.Loop.{fold_range}
use xdna_cpp.Base.Memory.{Memory}
use xdna_cpp.Base.Outcome.{done}
use xdna_cpp.Base.{ap, ◌∙◌}
use native.Mathlib.Nat.{mul-le-mul_right, div-le_self, div-add-mod'}
use xdna_cpp.Base.Word.{u64}
use xdna_cpp.Prepack.{
  PackedTileLayout, layout_for, compute_layout, pack, col_weight_bytes, col_total_bytes,
}

-- The sizes as they are meant, for rows of `groups_per_row` blocks.
pub record IsExact (l : PackedTileLayout) : Type 0 where
  pub row_weights : l.weight_bytes_per_row ≡ l.groups_per_row * 16
  pub col_weights : col_weight_bytes l ≡ l.rows_per_column * (l.groups_per_row * 16)
  pub col_total : col_total_bytes l ≡ l.rows_per_column * (l.groups_per_row * 18)
  pub row_blocks : u64 (l.groups_per_row * 18) ≡ l.groups_per_row * 18
  pub row_values : l.k ≡ l.groups_per_row * 32

-- A successful layout of groups of 32.
pub record IsLayout (m k num_columns : ℕ) (l : PackedTileLayout) : Type 0 where
  pub exact : IsExact l
  pub columns : l.num_columns ≡ num_columns
  pub rows : l.rows_per_column * num_columns ≡ m
  pub groups : l.groups_per_row * 32 ≡ k
  pub total : l.total_packed_bytes ≡ m * (l.groups_per_row * 18)
  pub total_columns : l.total_packed_bytes ≡ num_columns * col_total_bytes l

-- What of the sizes fits a `size_t`, once the whole does.
record Fits (rows groups : ℕ) : Type 0 where
  block_bytes : groups * 18 < 2 ^ 64
  column_bytes : rows * (groups * 18) < 2 ^ 64

layout_Fits :
    (m k num_columns : ℕ) → 0 < m → m * (k / 32 * 18) < 2 ^ 64 → Fits (m / num_columns) (k / 32)
layout_Fits m k num_columns hm small = record {
  block_bytes = omega (arith, mul-le-mul_right (k / 32 * 18) hm);
  column_bytes = omega (arith, mul-le-mul_right (k / 32 * 18) (div-le_self m num_columns));
}

-- Products with the row's weight bytes and with its packed bytes.
half_row : (k r : ℕ) → k % 32 ≡ 0 → r * (k / 2) ≡ r * (k / 32 * 16)
half_row k r hk = ap (λ (t : ℕ). r * t) (omega arith)

layout_for-IsExact :
    (m k num_columns : ℕ)
    → k % 32 ≡ 0
    → Fits (m / num_columns) (k / 32)
    → IsExact (layout_for m k num_columns 32)
unfolding layout_for col_total_bytes
layout_for-IsExact m k num_columns hk fits =
    let half = half_row k (m / num_columns) hk in
    let scales : u64 (k / 32 * 2) ≡ k / 32 * 2 = omega (arith, fits.block_bytes) in
    record {
      row_weights = omega arith;
      col_weights = omega (arith, half, fits.column_bytes);
      col_total = rw scales (omega (arith, half, fits.column_bytes));
      row_blocks = omega (arith, fits.block_bytes);
      row_values = omega arith;
    }

-- For at least one column and one row, rows of whole blocks, a number of rows that the columns
-- divide, and a packed size that is a `size_t`: `compute_layout` succeeds, and its sizes are those
-- that the header states, with no product wrapped.
pub compute_layout-IsLayout :
    (m k num_columns : ℕ)
    → 0 < num_columns
    → 0 < m
    → k % 32 ≡ 0
    → m % num_columns ≡ 0
    → m * (k / 32 * 18) < 2 ^ 64
    → (l : PackedTileLayout) × (compute_layout m k num_columns 32 ≡ done l)
      × IsLayout m k num_columns l
unfolding compute_layout layout_for
compute_layout-IsLayout m k num_columns hc hm hk hcols small =
    let fits = layout_Fits m k num_columns hm small in
    let exact = layout_for-IsExact m k num_columns hk fits in
    let rows : m / num_columns * num_columns ≡ m = omega (arith, div-add-mod' m num_columns) in
    let packed : u64 (k / 2 + u64 (k / 32 * 2)) ≡ k / 32 * 18 = omega (arith, fits.block_bytes) in
    let total : u64 (m * u64 (k / 2 + u64 (k / 32 * 2))) ≡ m * (k / 32 * 18) =
      rw packed (omega arith) in
    (
      layout_for m k num_columns 32,
      ground arith,
      record {
        exact = exact;
        columns = refl;
        rows = rows;
        groups = omega arith;
        total = total;
        total_columns =
            total ∙ rw exact.col_total (omega (arith, ap (λ (t : ℕ). t * (k / 32 * 18)) rows));
      },
    )

-- With `num_columns` zero the layout, where there is one, is that of four columns, but `pack`
-- succeeds without a write.
pub pack_zero_columns :
    (source : Memory) (m k : ℕ) (packed : Memory) (group_size : ℕ) (l : PackedTileLayout)
    → compute_layout m k 0 group_size ≡ done l
    → (compute_layout m k 4 group_size ≡ done l)
      × (pack source m k packed 0 group_size ≡ done packed)
unfolding compute_layout pack fold_range
pack_zero_columns source m k packed group_size l e = (e, rw e refl)
