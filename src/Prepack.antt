-- ===== src/Prepack.antt =====
-- `Q4Prepacker` of src/xdna-q4-prepack.cpp. The buffers are flat memories: `gguf_q4_0_data` and
-- the packed buffer by bytes, the float output by elements. An offset into a buffer is a number
-- that does not wrap; the products of `compute_layout` wrap as a `size_t` does.
pub mod Layout
pub mod Slots
pub mod Place
pub mod Unpack
pub mod RoundTrip
use xdna_cpp.Base.{ℕ, ◌+◌, ◌*◌, ◌/◌, ◌%◌, Bool, not, ◌==◌, if◌then◌else◌, bit_and, bit_or}
use xdna_cpp.Base.Float.{Float32}
use xdna_cpp.Base.Int.{pos, ◌-ℤ◌}
use xdna_cpp.Base.Loop.{fold_range}
use xdna_cpp.Base.Memory.{Memory, update}
use xdna_cpp.Base.Outcome.{Outcome, done, ◌>>=◌, ◌>>◌, throw_if}
use xdna_cpp.Base.Word.{u8, u64, shl, shr}
use xdna_cpp.Q4.Float.{fp16_to_float, bf16_to_float, float_to_bf16}

pub data LayoutError : Type 0 where
  ragged_groups ragged_columns : LayoutError

pub record PackedTileLayout : Type 0 where
  pub m : ℕ
  pub k : ℕ
  pub num_columns : ℕ
  pub rows_per_column : ℕ
  pub group_size : ℕ
  pub groups_per_row : ℕ
  pub weight_bytes_per_row : ℕ
  pub scale_bytes_per_row : ℕ
  pub packed_bytes_per_row : ℕ
  pub total_packed_bytes : ℕ

pub layout_for : (m k num_columns group_size : ℕ) → PackedTileLayout
layout_for m k num_columns group_size =
    let groups = k / group_size in
    let weight_bytes = k / 2 in
    let scale_bytes = u64 (groups * 2) in
    let packed_bytes = u64 (weight_bytes + scale_bytes) in
    record {
      m = m;
      k = k;
      num_columns = num_columns;
      rows_per_column = m / num_columns;
      group_size = group_size;
      groups_per_row = groups;
      weight_bytes_per_row = weight_bytes;
      scale_bytes_per_row = scale_bytes;
      packed_bytes_per_row = packed_bytes;
      total_packed_bytes = u64 (m * packed_bytes);
    }

-- The zero defaults are filled in for the layout alone: the caller's variables stay zero.
unfoldable pub compute_layout :
    (m k num_columns group_size : ℕ) → Outcome LayoutError PackedTileLayout
unfolding layout_for
compute_layout m k num_columns group_size = do
  let columns = if num_columns == 0 then 4 else num_columns
  let size = if group_size == 0 then 32 else group_size
  throw_if (not (k % size == 0)) ragged_groups
  throw_if (not (m % columns == 0)) ragged_columns
  done (layout_for m k columns size)

-- The three sizes that `pack` and `dequantize_packed` derive from the layout.
pub col_weight_bytes : PackedTileLayout → ℕ
col_weight_bytes l = u64 (l.rows_per_column * l.weight_bytes_per_row)

pub col_scale_bytes : PackedTileLayout → ℕ
col_scale_bytes l = u64 (l.rows_per_column * l.scale_bytes_per_row)

pub col_total_bytes : PackedTileLayout → ℕ
unfolding col_weight_bytes col_scale_bytes
col_total_bytes l = u64 (col_weight_bytes l + col_scale_bytes l)

-- `memcpy(to, from, n)`
pub copy_bytes : Memory → (from n to : ℕ) → Memory → Memory
copy_bytes source from n to = fold_range n 0 λ t m. update m (to + t) (source (from + t))

-- A `uint16_t` in memory, low byte first.
abbrev pub load_u16 : Memory → ℕ → ℕ
load_u16 m a = bit_or (m a) (shl (m (a + 1)) 8)

abbrev pub store_u16 : ℕ → ℕ → Memory → Memory
store_u16 a v m = update (update m a (u8 v)) (a + 1) (u8 (shr v 8))

module _ (l : PackedTileLayout) where
  -- `row_weight_ptr + g * 16` and `row_scale_ptr + g` for row `r` of column `col`.
  abbrev pub weight_at : (col r g : ℕ) → ℕ
  weight_at col r g = col * col_total_bytes l + r * l.weight_bytes_per_row + g * 16

  abbrev pub scale_at : (col r g : ℕ) → ℕ
  scale_at col r g = col * col_total_bytes l + col_weight_bytes l + (r * l.groups_per_row + g) * 2

  -- `gguf_blocks + g`
  abbrev pub block_at : (col r g : ℕ) → ℕ
  block_at col r g = (col * l.rows_per_column + r) * u64 (l.groups_per_row * 18) + g * 18

  module _ (source : Memory) where
    pub pack_group : (col r g : ℕ) → Memory → Memory
    unfolding copy_bytes
    pack_group col r g m =
        let block = block_at col r g in
        let copied = copy_bytes source (block + 2) 16 (weight_at col r g) m in
        let scale_f32 = fp16_to_float (load_u16 source block) in
        store_u16 (scale_at col r g) (float_to_bf16 scale_f32) copied

    pub pack_row : (col r : ℕ) → Memory → Memory
    pack_row col r = fold_range l.groups_per_row 0 (pack_group col r)

    pub pack_column : ℕ → Memory → Memory
    pack_column col = fold_range l.rows_per_column 0 (pack_row col)

  module _ (F : Float32) (packed : Memory) where
    -- One byte of a group: two values of the output.
    pub unpack_byte : (col r g j : ℕ) → Memory → Memory
    unpack_byte col r g j out =
        let d = bf16_to_float (load_u16 packed (scale_at col r g)) in
        let byte = packed (weight_at col r g + j) in
        let row_out = (col * l.rows_per_column + r) * l.k in
        let first =
          update out (row_out + g * 32 + j)
            (F.mul (F.of_int (pos (bit_and byte 0x0f) -ℤ pos 8)) d) in
        update first (row_out + g * 32 + j + 16) (F.mul (F.of_int (pos (shr byte 4) -ℤ pos 8)) d)

    pub unpack_group : (col r g : ℕ) → Memory → Memory
    unpack_group col r g = fold_range 16 0 (unpack_byte col r g)

    pub unpack_row : (col r : ℕ) → Memory → Memory
    unpack_row col r = fold_range l.groups_per_row 0 (unpack_group col r)

    pub unpack_column : ℕ → Memory → Memory
    unpack_column col = fold_range l.rows_per_column 0 (unpack_row col)

-- The loop over the columns runs to the caller's `num_columns`, not to the layout's.
pub pack : Memory → (m k : ℕ) → Memory → (num_columns group_size : ℕ) → Outcome LayoutError Memory
pack source m k packed num_columns group_size = do
  layout ← compute_layout m k num_columns group_size
  done (fold_range num_columns 0 (pack_column layout source) packed)

pub dequantize_packed :
    Float32
    → Memory
    → (m k : ℕ) → Memory
    → (num_columns group_size : ℕ) → Outcome LayoutError Memory
dequantize_packed F packed m k out num_columns group_size = do
  layout ← compute_layout m k num_columns group_size
  done (fold_range num_columns 0 (unpack_column layout F packed) out)
