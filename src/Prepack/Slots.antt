-- ===== src/Prepack/Slots.antt =====
-- Which bytes a group, a row and a column of the packed buffer take: no two of them meet.
use xdna_cpp.Base.{ℕ, ◌+◌, ◌*◌, ◌<◌, ◌≤◌, ◌≡◌, ◌≢◌, ◌⊎◌, arith, ap, ◌∙◌}
use native.Mathlib.Nat.{mul-le-mul_right}
use xdna_cpp.Prepack.{PackedTileLayout, weight_at, scale_at, col_weight_bytes, col_total_bytes}
use xdna_cpp.Prepack.Layout.{IsExact}

-- Slots of one size in a row: the one at index `i` ends before the one at a later index begins.
pub slot_lt : (i j size : ℕ) → i < j → i * size + size ≤ j * size
slot_lt i j size h = omega (arith, mul-le-mul_right size h)

-- `a` is outside the `size` bytes at `start`.
abbrev pub Outside : (start size a : ℕ) → Type 0
Outside start size a = (a < start) ⊎ (start + size ≤ a)

-- The bytes of a group: sixteen of nibbles, two of scale.
abbrev pub InGroup : PackedTileLayout → (col r g a : ℕ) → Type 0
InGroup l col r g a =
    ((weight_at l col r g ≤ a) × (a < weight_at l col r g + 16))
    ⊎ ((scale_at l col r g ≤ a) × (a < scale_at l col r g + 2))

abbrev pub OutsideGroup : PackedTileLayout → (col r g a : ℕ) → Type 0
OutsideGroup l col r g a = Outside (weight_at l col r g) 16 a × Outside (scale_at l col r g) 2 a

-- The bytes of a row: its nibbles, and its scales behind the nibbles of the whole column.
abbrev pub OutsideRow : PackedTileLayout → (col r a : ℕ) → Type 0
OutsideRow l col r a =
    Outside (col * col_total_bytes l + r * l.weight_bytes_per_row) (l.groups_per_row * 16) a
    × Outside (col * col_total_bytes l + col_weight_bytes l + r * l.groups_per_row * 2)
        (l.groups_per_row * 2) a

abbrev pub OutsideColumn : PackedTileLayout → (col a : ℕ) → Type 0
OutsideColumn l col a = Outside (col * col_total_bytes l) (col_total_bytes l) a

row_start :
    {l : PackedTileLayout}
    → IsExact l
    → (r : ℕ) → r * l.weight_bytes_per_row ≡ r * l.groups_per_row * 16
row_start x r = ap (λ (t : ℕ). r * t) x.row_weights ∙ omega arith

-- The nibbles of a column stand below its scales.
pub weight_below_scale :
    {l : PackedTileLayout}
    → IsExact l
    → (col r g : ℕ) → r < l.rows_per_column
    → g < l.groups_per_row
    → weight_at l col r g + 16 ≤ scale_at l col r g
weight_below_scale {l} x col r g hr hg =
    omega (arith, row_start x r, x.col_weights, slot_lt r l.rows_per_column l.groups_per_row hr)

module _ {l : PackedTileLayout} (x : IsExact l) (col r : ℕ) {a : ℕ} where
  pub group_of_row :
      (g : ℕ) → g < l.groups_per_row → OutsideRow l col r a → OutsideGroup l col r g a
  group_of_row g hg out = ground arith

  pub row_of_column : r < l.rows_per_column → OutsideColumn l col a → OutsideRow l col r a
  row_of_column hr out = ground (
    arith,
    row_start x r,
    x.col_weights,
    x.col_total,
    slot_lt r l.rows_per_column l.groups_per_row,
  )

  module _ (g : ℕ) (hr : r < l.rows_per_column) (hg : g < l.groups_per_row)
      (h : InGroup l col r g a) where
    pub other_group : (k : ℕ) → k < l.groups_per_row → k ≢ g → OutsideGroup l col r k a
    other_group k hk ne =
        ground (arith, row_start x r, x.col_weights, slot_lt r l.rows_per_column l.groups_per_row)

    pub other_row : (k : ℕ) → k < l.rows_per_column → k ≢ r → OutsideRow l col k a
    other_row k hk ne = ground (
      arith,
      row_start x r,
      row_start x k,
      x.col_weights,
      slot_lt r l.rows_per_column l.groups_per_row,
      slot_lt k l.rows_per_column l.groups_per_row,
      slot_lt r k l.groups_per_row,
      slot_lt k r l.groups_per_row,
    )

    pub other_column : (k : ℕ) → k ≢ col → OutsideColumn l k a
    other_column k ne = ground (
      arith,
      row_start x r,
      x.col_weights,
      x.col_total,
      slot_lt r l.rows_per_column l.groups_per_row,
      slot_lt k col (col_total_bytes l),
      slot_lt col k (col_total_bytes l),
    )
