-- ===== src/Prepack/Unpack.antt =====
-- What `dequantize_packed` writes for one group, and that no other group writes there.
use xdna_cpp.Base.{ℕ, ◌+◌, ◌*◌, ◌/◌, ◌%◌, ◌<◌, ◌≡◌, arith}
use xdna_cpp.Base.Bits.{bit_and-mask}
use xdna_cpp.Base.Float.{Float32}
use xdna_cpp.Base.Int.{pos, ◌-ℤ◌}
use xdna_cpp.Base.Loop.{fold_range}
use xdna_cpp.Base.Memory.{Memory, fold_range_miss, fold_range_hit}
use xdna_cpp.Prepack.{
  PackedTileLayout, unpack_byte, unpack_group, unpack_row, unpack_column, load_u16, weight_at,
  scale_at,
}
use xdna_cpp.Prepack.Layout.{IsExact}
use xdna_cpp.Prepack.Slots.{slot_lt, Outside}
use xdna_cpp.Q4.Float.{bf16_to_float}

module _ (l : PackedTileLayout) (F : Float32) (packed : Memory) where
  -- The first output of a group.
  abbrev pub out_at : (col r g : ℕ) → ℕ
  out_at col r g = (col * l.rows_per_column + r) * l.k + g * 32

  group_miss :
      (col r g a : ℕ) (out : Memory)
      → Outside (out_at col r g) 32 a
      → unpack_group l F packed col r g out a ≡ out a
  unfolding unpack_group unpack_byte
  group_miss col r g a out h =
      fold_range_miss (unpack_byte l F packed col r g) a 16 0 out (λ j s p q. ground arith)

  module _ (x : IsExact l) where
    row_miss :
        (col r a : ℕ) (out : Memory)
        → Outside ((col * l.rows_per_column + r) * l.k) l.k a
        → unpack_row l F packed col r out a ≡ out a
    unfolding unpack_row
    row_miss col r a out h =
        fold_range_miss (unpack_group l F packed col r) a l.groups_per_row 0 out
          (λ g s p q. group_miss col r g a s (ground (arith, x.row_values)))

    column_miss :
        (col a : ℕ) (out : Memory)
        → Outside (col * (l.rows_per_column * l.k)) (l.rows_per_column * l.k) a
        → unpack_column l F packed col out a ≡ out a
    unfolding unpack_column
    column_miss col a out h =
        fold_range_miss (unpack_row l F packed col) a l.rows_per_column 0 out
          (λ r s p q. row_miss col r a s (ground (arith, slot_lt r l.rows_per_column l.k)))

    pub columns_hit :
        (columns col r g i v : ℕ) (out : Memory)
        → col < columns
        → r < l.rows_per_column
        → g < l.groups_per_row
        → i < 32
        → ((out : Memory) → unpack_group l F packed col r g out (out_at col r g + i) ≡ v)
        → fold_range columns 0 (unpack_column l F packed) out (out_at col r g + i) ≡ v
    unfolding unpack_column unpack_row
    columns_hit columns col r g i v out hcol hr hg hi hits =
        fold_range_hit (unpack_column l F packed) (out_at col r g + i) v columns 0 col out
          (omega arith) (omega arith)
          (λ k s p q ne. column_miss k _ s (
            ground (
              arith,
              x.row_values,
              slot_lt k col (l.rows_per_column * l.k),
              slot_lt col k (l.rows_per_column * l.k),
              slot_lt r l.rows_per_column l.k,
            )))
          λ out.
            fold_range_hit (unpack_row l F packed col) (out_at col r g + i) v l.rows_per_column 0 r
              out (omega arith) (omega arith)
              (λ k s p q ne.
                row_miss col k _ s (ground (arith, x.row_values, slot_lt k r l.k, slot_lt r k l.k)))
              λ out.
                fold_range_hit (unpack_group l F packed col r) (out_at col r g + i) v
                  l.groups_per_row 0 g out (omega arith) (omega arith)
                  (λ k s p q ne. group_miss col r k _ s (ground arith)) hits

  abbrev pub scale_of : (col r g : ℕ) → ℕ
  scale_of col r g = bf16_to_float (load_u16 packed (scale_at l col r g))

  pub group_low :
      (col r g j : ℕ) (out : Memory)
      → j < 16
      → unpack_group l F packed col r g out (out_at col r g + j)
        ≡ F.mul (F.of_int (pos (packed (weight_at l col r g + j) % 16) -ℤ pos 8)) (scale_of col r g)
  unfolding unpack_group unpack_byte
  group_low col r g j out hj =
      fold_range_hit (unpack_byte l F packed col r g) (out_at col r g + j) _ 16 0 j out
        (omega arith) (omega arith) (λ k s p q ne. ground arith)
        (λ s. ground (arith, bit_and-mask 4 (packed (weight_at l col r g + j))))

  pub group_high :
      (col r g j : ℕ) (out : Memory)
      → j < 16
      → unpack_group l F packed col r g out (out_at col r g + (j + 16))
        ≡ F.mul (F.of_int (pos (packed (weight_at l col r g + j) / 16) -ℤ pos 8)) (scale_of col r g)
  unfolding unpack_group unpack_byte
  group_high col r g j out hj =
      fold_range_hit (unpack_byte l F packed col r g) (out_at col r g + (j + 16)) _ 16 0 j out
        (omega arith) (omega arith) (λ k s p q ne. ground arith) (λ s. ground arith)
