-- ===== src/Prepack/Place.antt =====
-- Where `pack` puts each byte, and that it writes nothing else.
use xdna_cpp.Base.{ℕ, ◌+◌, ◌*◌, ◌/◌, ◌%◌, ◌^◌, ◌<◌, ◌≤◌, ◌≡◌, arith, inl, inr}
use xdna_cpp.Base.Loop.{fold_range}
use xdna_cpp.Base.Memory.{Memory, update, fold_range_miss, fold_range_hit}
use xdna_cpp.Base.Outcome.{done}
use xdna_cpp.Base.Word.{u8, shr}
use xdna_cpp.Prepack.{
  PackedTileLayout, compute_layout, pack, pack_group, pack_row, pack_column, load_u16, weight_at,
  scale_at, block_at, col_total_bytes,
}
use xdna_cpp.Prepack.Layout.{IsExact, IsLayout, compute_layout-IsLayout}
use xdna_cpp.Prepack.Slots.{
  slot_lt, weight_below_scale, InGroup, OutsideGroup, OutsideRow, OutsideColumn, group_of_row,
  row_of_column, other_group, other_row, other_column,
}
use xdna_cpp.Q4.Float.{fp16_to_float, float_to_bf16}

module _ (l : PackedTileLayout) (source : Memory) (x : IsExact l) where
  group_miss :
      (col r g a : ℕ) (m : Memory)
      → OutsideGroup l col r g a
      → pack_group l source col r g m a ≡ m a
  unfolding pack_group
  group_miss col r g a m out = ground (
    arith,
    fold_range_miss
        (λ t m. update m (weight_at l col r g + t) (source (block_at l col r g + 2 + t))) a 16 0 m
        (λ t s p q. ground arith),
  )

  row_miss : (col r a : ℕ) (m : Memory) → OutsideRow l col r a → pack_row l source col r m a ≡ m a
  unfolding pack_row
  row_miss col r a m out =
      fold_range_miss (pack_group l source col r) a l.groups_per_row 0 m
        (λ g s p q. group_miss col r g a s (group_of_row x col r g (omega arith) out))

  column_miss :
      (col a : ℕ) (m : Memory) → OutsideColumn l col a → pack_column l source col m a ≡ m a
  unfolding pack_column
  column_miss col a m out =
      fold_range_miss (pack_row l source col) a l.rows_per_column 0 m
        (λ r s p q. row_miss col r a s (row_of_column x col r (omega arith) out))

  -- What one group leaves in its bytes is there when the whole matrix is packed.
  columns_hit :
      (columns col r g a v : ℕ) (m : Memory)
      → col < columns
      → r < l.rows_per_column
      → g < l.groups_per_row
      → InGroup l col r g a
      → ((m : Memory) → pack_group l source col r g m a ≡ v)
      → fold_range columns 0 (pack_column l source) m a ≡ v
  unfolding pack_column pack_row
  columns_hit columns col r g a v m hcol hr hg inside hits =
      fold_range_hit (pack_column l source) a v columns 0 col m (omega arith) (omega arith)
        (λ k s p q ne. column_miss k a s (other_column x col r g hr hg inside k ne))
        λ m.
          fold_range_hit (pack_row l source col) a v l.rows_per_column 0 r m (omega arith)
            (omega arith)
            (λ k s p q ne. row_miss col k a s (other_row x col r g hr hg inside k (omega arith) ne))
            λ m.
              fold_range_hit (pack_group l source col r) a v l.groups_per_row 0 g m (omega arith)
                (omega arith)
                (λ k s p q ne.
                  group_miss col r k a s (other_group x col r g hr hg inside k (omega arith) ne))
                hits

  group_weight :
      (col r g t : ℕ) (m : Memory)
      → r < l.rows_per_column
      → g < l.groups_per_row
      → t < 16
      → pack_group l source col r g m (weight_at l col r g + t)
        ≡ source (block_at l col r g + 2 + t)
  unfolding pack_group
  group_weight col r g t m hr hg ht =
      let below = weight_below_scale x col r g hr hg in
      ground (
        arith,
        below,
        fold_range_hit
            (λ t m. update m (weight_at l col r g + t) (source (block_at l col r g + 2 + t)))
            (weight_at l col r g + t) (source (block_at l col r g + 2 + t)) 16 0 t m (omega arith)
            (omega arith) (λ k s p q ne. ground arith) (λ s. ground arith),
      )

  -- The bfloat16 that the scale of a block becomes.
  abbrev pub packed_scale : (col r g : ℕ) → ℕ
  packed_scale col r g = float_to_bf16 (fp16_to_float (load_u16 source (block_at l col r g)))

  group_scale :
      (col r g : ℕ) (m : Memory)
      → (pack_group l source col r g m (scale_at l col r g) ≡ u8 (packed_scale col r g))
        × (pack_group l source col r g m (scale_at l col r g + 1)
            ≡ u8 (shr (packed_scale col r g) 8))
  unfolding pack_group
  group_scale col r g m = (ground arith, ground arith)

-- The packed buffer `out`: the nibbles of every block and its rounded scale at their places, and
-- nothing written at or behind `total_packed_bytes`.
pub record IsPacked (l : PackedTileLayout) (source before out : Memory) : Type 0 where
  pub nibbles :
      (col r g t : ℕ)
      → col < l.num_columns
      → r < l.rows_per_column
      → g < l.groups_per_row
      → t < 16
      → out (weight_at l col r g + t) ≡ source (block_at l col r g + 2 + t)
  pub scale_low :
      (col r g : ℕ)
      → col < l.num_columns
      → r < l.rows_per_column
      → g < l.groups_per_row
      → out (scale_at l col r g)
        ≡ u8 (float_to_bf16 (fp16_to_float (load_u16 source (block_at l col r g))))
  pub scale_high :
      (col r g : ℕ)
      → col < l.num_columns
      → r < l.rows_per_column
      → g < l.groups_per_row
      → out (scale_at l col r g + 1)
        ≡ u8 (shr (float_to_bf16 (fp16_to_float (load_u16 source (block_at l col r g)))) 8)
  pub untouched : (a : ℕ) → l.total_packed_bytes ≤ a → out a ≡ before a

columns_IsPacked :
    (m k columns : ℕ) (l : PackedTileLayout) (source before : Memory)
    → IsLayout m k columns l
    → IsPacked l source before (fold_range columns 0 (pack_column l source) before)
columns_IsPacked m k columns l source before y = record {
  nibbles = λ col r g t hc hr hg ht.
      columns_hit l source y.exact columns col r g _ _ before (rw (← y.columns) hc) hr hg
        (inl (omega arith, omega arith)) (λ s. group_weight l source y.exact col r g t s hr hg ht);
  scale_low = λ col r g hc hr hg.
      columns_hit l source y.exact columns col r g _ _ before (rw (← y.columns) hc) hr hg
        (inr (omega arith, omega arith)) (λ s. (group_scale l source y.exact col r g s).0);
  scale_high = λ col r g hc hr hg.
      columns_hit l source y.exact columns col r g _ _ before (rw (← y.columns) hc) hr hg
        (inr (omega arith, omega arith)) (λ s. (group_scale l source y.exact col r g s).1);
  untouched = λ a h. fold_range_miss (pack_column l source) a columns 0 before (λ c s p q.
      column_miss l source y.exact c a s (
        inr (omega (arith, y.total_columns, slot_lt c columns (col_total_bytes l) (omega arith)))));
}

-- For at least one column and one row, rows of whole blocks, a number of rows that the columns
-- divide, and a packed size that is a `size_t`: `pack` succeeds, every byte of nibbles and every
-- rounded scale stands at its place of the layout, and nothing behind the layout's bytes is
-- written.
pub pack-IsPacked :
    (source : Memory) (m k : ℕ) (before : Memory) (num_columns : ℕ)
    → 0 < num_columns
    → 0 < m
    → k % 32 ≡ 0
    → m % num_columns ≡ 0
    → m * (k / 32 * 18) < 2 ^ 64
    → (l : PackedTileLayout) × (out : Memory) × (compute_layout m k num_columns 32 ≡ done l)
      × IsLayout m k num_columns l
      × (pack source m k before num_columns 32 ≡ done out)
      × IsPacked l source before out
unfolding pack
pack-IsPacked source m k before num_columns hc hm hk hcols small =
    let (l, runs, y) = compute_layout-IsLayout m k num_columns hc hm hk hcols small in
    (
      l,
      fold_range num_columns 0 (pack_column l source) before,
      runs,
      y,
      rw runs,
      columns_IsPacked m k num_columns l source before y,
    )
