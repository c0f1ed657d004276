-- ===== src/Staging.antt =====
-- The staging ring of tools/test-bounded-staging-ring.cpp, in the build with XRT: which bytes of the tensors go through
-- which of the two buffers, and the rows that are computed from them.
pub mod Chunks
use xdna_cpp.Base.{
  ℕ, zero, suc, ◌+◌, ◌-◌, ◌*◌, ◌/◌, Bool, true, false, List, [], ◌∷◌, ◌++◌, Option, none, some, ltb,
  if◌then◌else◌,
}

-- One round: the copy and the sync of `size` bytes from `offset`, and the run of the engine on `rows` rows.
pub record Chunk : Type 0 where
  pub buffer : ℕ
  pub offset : ℕ
  pub size : ℕ
  pub rows : ℕ

-- The sizes of `test_ring`: a tensor of about 48 MiB, its rows rounded up to a multiple of four.
abbrev pub row_bytes : ℕ
row_bytes = 5120 / 32 * 18

abbrev pub tensor_rows : ℕ
tensor_rows = (48 * 1024 * 1024 / row_bytes + 3) / 4 * 4

abbrev pub actual_tensor_bytes : ℕ
actual_tensor_bytes = tensor_rows * row_bytes

abbrev pub num_tensors : (total_stream_bytes : ℕ) → ℕ
num_tensors total_stream_bytes = total_stream_bytes / (48 * 1024 * 1024)

-- `std::min(a, b)`
abbrev pub min_of : ℕ → ℕ → ℕ
min_of a b = if ltb b a then b else a

abbrev pub in_front : Chunk → Option (List Chunk × ℕ) → Option (List Chunk × ℕ)
in_front chunk none = none
in_front chunk (some (chunks, ring_idx)) = some (chunk ∷ chunks, ring_idx)

module _ (ring_buffer_bytes total : ℕ) where
  abbrev pub chunk_at : (offset ring_idx : ℕ) → Chunk
  chunk_at offset ring_idx =
      let size = min_of ring_buffer_bytes (total - offset) in
      record { buffer = ring_idx; offset = offset; size = size; rows = size / row_bytes }

  -- The `while` loop over a tensor, on fuel for its rounds: the chunks and the index behind them.
  unfoldable pub stage_tensor : (fuel offset ring_idx : ℕ) → Option (List Chunk × ℕ)
  stage_tensor zero offset ring_idx = if ltb offset total then none else some ([], ring_idx)
  stage_tensor (suc fuel) offset ring_idx = elim (ltb offset total) [
    | false ↦ some ([], ring_idx)
    | true ↦
        let chunk = chunk_at offset ring_idx in
        in_front chunk (stage_tensor fuel (offset + chunk.size) (1 - ring_idx))
  ]

abbrev behind : List Chunk → Option (List Chunk × ℕ) → Option (List Chunk × ℕ)
behind chunks none = none
behind chunks (some (more, ring_idx)) = some (chunks ++ more, ring_idx)

-- The loop over the tensors, which keeps the index of the buffer.
unfoldable pub stage_tensors : (ring_buffer_bytes fuel left ring_idx : ℕ) → Option (List Chunk × ℕ)
stage_tensors ring_buffer_bytes fuel zero ring_idx = some ([], ring_idx)
stage_tensors ring_buffer_bytes fuel (suc left) ring_idx =
    elim (stage_tensor ring_buffer_bytes actual_tensor_bytes fuel 0 ring_idx) [
      | none ↦ none
      | some (chunks, ring_idx') ↦
          behind chunks (stage_tensors ring_buffer_bytes fuel left ring_idx')
    ]

abbrev pub test_ring : (fuel ring_buffer_bytes total_stream_bytes : ℕ) → Option (List Chunk × ℕ)
test_ring fuel ring_buffer_bytes total_stream_bytes =
    stage_tensors ring_buffer_bytes fuel (num_tensors total_stream_bytes) 0
