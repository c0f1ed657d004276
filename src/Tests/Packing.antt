-- ===== src/Tests/Packing.antt =====
-- The prepacker at a concrete input: two rows of one block, in two columns.
use xdna_cpp.Base.{ℕ, ◌+◌, ◌*◌, ◌/◌, ◌<◌, ◌≡◌, refl, ◌++◌, arith}
use xdna_cpp.Base.Memory.{Memory}
use xdna_cpp.Base.Outcome.{done}
use xdna_cpp.Prepack.{PackedTileLayout, layout_for, compute_layout, pack, dequantize_packed}
use xdna_cpp.Prepack.Layout.{IsLayout}
use xdna_cpp.Prepack.Place.{IsPacked, pack-IsPacked}
use xdna_cpp.Prepack.RoundTrip.{rounded_weight, dequantize_packed-pack}
use xdna_cpp.Q4.Row.Weight.{byte_at}
use xdna_cpp.Tests.Data.{plain_numbers, one_block}

abbrev two_rows : Memory
two_rows = byte_at (one_block ++ one_block)

abbrev empty_memory : Memory
empty_memory a = 0

pack-IsPacked_example :
    (l : PackedTileLayout) × (out : Memory) × (compute_layout 2 32 2 32 ≡ done l)
    × IsLayout 2 32 2 l
    × (pack two_rows 2 32 empty_memory 2 32 ≡ done out)
    × IsPacked l two_rows empty_memory out
pack-IsPacked_example =
    pack-IsPacked two_rows 2 32 empty_memory 2 (omega arith) (omega arith) refl refl (omega arith)

dequantize_packed-pack_example :
    (packed values : Memory) × (pack two_rows 2 32 empty_memory 2 32 ≡ done packed)
    × (dequantize_packed plain_numbers packed 2 32 empty_memory 2 32 ≡ done values)
    × ((row i : ℕ)
        → row < 2
        → i < 32
        → values (row * 32 + i) ≡ rounded_weight plain_numbers two_rows (row * (32 / 32 * 18)) i)
dequantize_packed-pack_example =
    dequantize_packed-pack plain_numbers two_rows 2 32 empty_memory empty_memory 2 (omega arith)
      (omega arith) refl refl (omega arith)

zero_columns : compute_layout 4 32 0 32 ≡ done (layout_for 4 32 4 32)
unfolding compute_layout
zero_columns = refl
