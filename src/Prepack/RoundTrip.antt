-- ===== src/Prepack/RoundTrip.antt =====
-- `dequantize_packed` after `pack` gives the matrix with each scale rounded to bfloat16.
use mathlib.Core.Path.{ap₂}
use native.Mathlib.Decide.{dec_lt}
use native.Mathlib.Nat.{div-add-mod', mod-lt, mul_comm, div-lt_iff_lt-mul}
use xdna_cpp.Base.{
  ℕ, ◌+◌, ◌-◌, ◌*◌, ◌/◌, ◌%◌, ◌^◌, ◌<◌, ◌≡◌, sym, ap, subst, ◌∙◌, arith, ltb, if◌then◌else◌, bit_or,
}
use xdna_cpp.Base.Bits.{bit_or-shift_right}
use xdna_cpp.Base.Float.{Float32}
use xdna_cpp.Base.Int.{pos, ◌-ℤ◌}
use xdna_cpp.Base.Loop.{fold_range}
use xdna_cpp.Base.Memory.{Memory}
use xdna_cpp.Base.Outcome.{done}
use xdna_cpp.Base.Word.{u8, shr}
use xdna_cpp.Prepack.{
  PackedTileLayout, pack, dequantize_packed, unpack_column, load_u16, scale_at, block_at,
}
use xdna_cpp.Prepack.Layout.{IsExact, IsLayout}
use xdna_cpp.Prepack.Place.{IsPacked, pack-IsPacked}
use xdna_cpp.Prepack.Unpack.{out_at, columns_hit, group_low, group_high}
use xdna_cpp.Q4.Float.Rounding.{float_to_bf16-lt}
use xdna_cpp.Q4.Float.{fp16_to_float, float_to_bf16, bf16_to_float}

-- The four bits of value `i` of the row at byte `start` of the GGUF data.
pub source_nibble : Memory → (start i : ℕ) → ℕ
source_nibble source start i =
    let byte = source (start + i / 32 * 18 + 2 + i % 16) in
    if ltb (i % 32) 16 then byte % 16 else byte / 16

-- Value `i` of the row: its four bits less 8, times the scale of its block rounded to bfloat16.
abbrev pub rounded_weight : Float32 → Memory → (start i : ℕ) → ℕ
rounded_weight F source start i =
    F.mul (F.of_int (pos (source_nibble source start i) -ℤ pos 8))
      (bf16_to_float (float_to_bf16 (fp16_to_float (load_u16 source (start + i / 32 * 18)))))

-- A stored bfloat16 is read back.
scale_read :
    (l : PackedTileLayout) (source before out : Memory) (col r g : ℕ)
    → IsPacked l source before out
    → col < l.num_columns
    → r < l.rows_per_column
    → g < l.groups_per_row
    → load_u16 out (scale_at l col r g)
      ≡ float_to_bf16 (fp16_to_float (load_u16 source (block_at l col r g)))
scale_read l source before out col r g p hc hr hg =
    rw (p.scale_low col r g hc hr hg, p.scale_high col r g hc hr hg) (stored _ (float_to_bf16-lt _))
  where
    stored : (v : ℕ) → v < 2 ^ 16 → bit_or (u8 v) (u8 (shr v 8) * 2 ^ 8) ≡ v
    stored v h = bit_or-shift_right 8 (u8 (shr v 8)) (u8 v) (omega arith) ∙ omega arith

module _ (source : Memory) (start g j : ℕ) (hj : j < 16) where
  nibble_low : source_nibble source start (g * 32 + j) ≡ source (start + g * 18 + 2 + j) % 16
  unfolding source_nibble
  nibble_low =
      let block : (g * 32 + j) / 32 ≡ g = omega arith in
      let place : (g * 32 + j) % 16 ≡ j = omega arith in rw (block, place) (ground arith)

  nibble_high :
      source_nibble source start (g * 32 + (j + 16)) ≡ source (start + g * 18 + 2 + j) / 16
  unfolding source_nibble
  nibble_high =
      let block : (g * 32 + (j + 16)) / 32 ≡ g = omega arith in
      let place : (g * 32 + (j + 16)) % 16 ≡ j = omega arith in rw (block, place) (ground arith)

-- The values of a group, from the bytes of the packed buffer.
module _ (F : Float32) (l : PackedTileLayout) (source before packed : Memory)
    (p : IsPacked l source before packed) (x : IsExact l) (columns : ℕ)
    (hcolumns : l.num_columns ≡ columns) (out : Memory) where
  abbrev result : Memory
  result = fold_range columns 0 (unpack_column l F packed) out

  abbrev row_start : (col r : ℕ) → ℕ
  row_start col r = (col * l.rows_per_column + r) * (l.groups_per_row * 18)

  block_start : (col r g : ℕ) → block_at l col r g ≡ row_start col r + g * 18
  block_start col r g = ap (λ (t : ℕ). (col * l.rows_per_column + r) * t + g * 18) x.row_blocks

  value_low :
      (col r g j : ℕ)
      → col < columns
      → r < l.rows_per_column
      → g < l.groups_per_row
      → j < 16
      → result (out_at l F packed col r g + j)
        ≡ rounded_weight F source (row_start col r) (g * 32 + j)
  value_low col r g j hc hr hg hj =
      let hc' : col < l.num_columns = rw hcolumns hc in
      let block : (g * 32 + j) / 32 ≡ g = omega arith in
      columns_hit l F packed x columns col r g j _ out hc hr hg (omega arith)
        (λ s. group_low l F packed col r g j s hj)
      ∙ ap₂ (λ (n s : ℕ). F.mul (F.of_int (pos n -ℤ pos 8)) (bf16_to_float s))
          (ap (λ (t : ℕ). t % 16) (p.nibbles col r g j hc' hr hg hj)
            ∙ ap (λ (t : ℕ). source (t + 2 + j) % 16) (block_start col r g)
            ∙ sym (nibble_low source (row_start col r) g j hj))
          (scale_read l source before packed col r g p hc' hr hg
            ∙ ap (λ (t : ℕ). float_to_bf16 (fp16_to_float (load_u16 source t)))
                (block_start col r g ∙ ap (λ (t : ℕ). row_start col r + t * 18) (sym block)))

  value_high :
      (col r g j : ℕ)
      → col < columns
      → r < l.rows_per_column
      → g < l.groups_per_row
      → j < 16
      → result (out_at l F packed col r g + (j + 16))
        ≡ rounded_weight F source (row_start col r) (g * 32 + (j + 16))
  value_high col r g j hc hr hg hj =
      let hc' : col < l.num_columns = rw hcolumns hc in
      let block : (g * 32 + (j + 16)) / 32 ≡ g = omega arith in
      columns_hit l F packed x columns col r g (j + 16) _ out hc hr hg (omega arith)
        (λ s. group_high l F packed col r g j s hj)
      ∙ ap₂ (λ (n s : ℕ). F.mul (F.of_int (pos n -ℤ pos 8)) (bf16_to_float s))
          (ap (λ (t : ℕ). t / 16) (p.nibbles col r g j hc' hr hg hj)
            ∙ ap (λ (t : ℕ). source (t + 2 + j) / 16) (block_start col r g)
            ∙ sym (nibble_high source (row_start col r) g j hj))
          (scale_read l source before packed col r g p hc' hr hg
            ∙ ap (λ (t : ℕ). float_to_bf16 (fp16_to_float (load_u16 source t)))
                (block_start col r g ∙ ap (λ (t : ℕ). row_start col r + t * 18) (sym block)))

  value_at :
      (col r i : ℕ)
      → col < columns
      → r < l.rows_per_column
      → i < l.groups_per_row * 32
      → result ((col * l.rows_per_column + r) * l.k + i)
        ≡ rounded_weight F source (row_start col r) i
  value_at col r i hc hr hi = elim (dec_lt (i % 32) 16) [
    | yes low ↦ at_split _ (value_low col r (i / 32) (i % 32) hc hr (omega arith) low) (omega arith)
    | no high ↦
        at_split _ (value_high col r (i / 32) (i % 32 - 16) hc hr (omega arith) (omega arith))
          (omega arith)
  ]
    where
      at_split :
          (j : ℕ)
          → result (out_at l F packed col r (i / 32) + j)
            ≡ rounded_weight F source (row_start col r) (i / 32 * 32 + j)
          → i / 32 * 32 + j ≡ i
          → result ((col * l.rows_per_column + r) * l.k + i)
            ≡ rounded_weight F source (row_start col r) i
      at_split j h e =
          subst
            (λ t.
              result ((col * l.rows_per_column + r) * l.k + t)
              ≡ rounded_weight F source (row_start col r) t)
            e (ap result (omega arith) ∙ h)

-- The same by the number of a row in the whole matrix.
module _ (F : Float32) (source before out : Memory) (m k columns : ℕ) where
  at_row :
      (l : PackedTileLayout) (packed : Memory)
      → IsLayout m k columns l
      → IsPacked l source before packed
      → (row i : ℕ) → row < m
      → i < k
      → fold_range columns 0 (unpack_column l F packed) out (row * k + i)
        ≡ rounded_weight F source (row * (k / 32 * 18)) i
  at_row l packed y p row i hrow hi =
      let rows = l.rows_per_column in
      let groups : k / 32 ≡ l.groups_per_row = omega (arith, y.groups) in
      let positive : 0 < rows = grind (arith, y.rows) in
      let split : row / rows * rows + row % rows ≡ row = div-add-mod' row rows in
      let column : row / rows < columns =
        (div-lt_iff_lt-mul positive).1 (omega (arith, y.rows, mul_comm rows columns)) in
      let width : l.k ≡ k = y.exact.row_values ∙ y.groups in
      let here =
        value_at F l source before packed p y.exact columns y.columns out (row / rows) (row % rows)
          i column (mod-lt row positive) (omega (arith, y.groups)) in
      ap (fold_range columns 0 (unpack_column l F packed) out)
        (sym (ap₂ (λ (a b : ℕ). a * b + i) split width))
      ∙ here
      ∙ ap (λ (t : ℕ). rounded_weight F source t i)
          (ap₂ (λ (a b : ℕ). a * (b * 18)) split (sym groups))

-- For at least one column and one row, rows of whole blocks, a number of rows that the columns
-- divide, and a packed size that is a `size_t`: `pack` and then `dequantize_packed` succeed, and
-- give every weight of the matrix, with the scale of its block rounded from binary16 to bfloat16,
-- at its row and column of the output.
pub dequantize_packed-pack :
    (F : Float32) (source : Memory) (m k : ℕ) (before out : Memory) (num_columns : ℕ)
    → 0 < num_columns
    → 0 < m
    → k % 32 ≡ 0
    → m % num_columns ≡ 0
    → m * (k / 32 * 18) < 2 ^ 64
    → (packed values : Memory) × (pack source m k before num_columns 32 ≡ done packed)
      × (dequantize_packed F packed m k out num_columns 32 ≡ done values)
      × ((row i : ℕ)
          → row < m
          → i < k
          → values (row * k + i) ≡ rounded_weight F source (row * (k / 32 * 18)) i)
unfolding dequantize_packed
dequantize_packed-pack F source m k before out num_columns hc hm hk hcols small =
    let (l, packed, runs, y, packs, p) =
      pack-IsPacked source m k before num_columns hc hm hk hcols small in
    (
      packed,
      fold_range num_columns 0 (unpack_column l F packed) out,
      packs,
      rw runs,
      λ row i hrow hi. at_row F source before out m k num_columns l packed y p row i hrow hi,
    )
