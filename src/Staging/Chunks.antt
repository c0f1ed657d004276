-- ===== src/Staging/Chunks.antt =====
-- The chunks of a tensor tile it, alternate between the buffers and hold the rows that are computed.
use xdna_cpp.Base.{
  ℕ, zero, suc, ◌+◌, ◌-◌, ◌*◌, ◌≡◌, ◌≤◌, ◌<◌, refl, false, List, [], ◌∷◌, some, inl, inr, ltb,
  Bool-cases, arith,
}
use xdna_cpp.Staging.{Chunk, row_bytes, min_of, chunk_at, stage_tensor}

-- From `offset` on the chunks follow one another up to the total, each of at most the ring's bytes and in the other
-- buffer than the one before, and the rows of a chunk lie inside it.
abbrev pub Tiles : (ring_buffer_bytes total offset ring_idx : ℕ) → List Chunk → Type 0
Tiles ring_buffer_bytes total offset ring_idx [] = offset ≡ total
Tiles ring_buffer_bytes total offset ring_idx (chunk ∷ chunks) =
    (chunk.offset ≡ offset)
    × (chunk.buffer ≡ ring_idx)
    × (0 < chunk.size)
    × (chunk.size ≤ ring_buffer_bytes)
    × (chunk.rows * row_bytes ≤ chunk.size)
    × Tiles ring_buffer_bytes total (offset + chunk.size) (1 - ring_idx) chunks

module _ (ring_buffer_bytes total : ℕ) where
  -- The size of a round is positive and ends inside the tensor.
  size_lem :
      (offset : ℕ)
      → 0 < ring_buffer_bytes
      → offset < total
      → (0 < min_of ring_buffer_bytes (total - offset))
        × (min_of ring_buffer_bytes (total - offset) ≤ ring_buffer_bytes)
        × (offset + min_of ring_buffer_bytes (total - offset) ≤ total)
  size_lem offset some_ring inside = ground (arith, some_ring, inside)

  -- For a ring with at least one byte and as much fuel as there are bytes left, the loop over a
  -- tensor ends: its chunks follow one another from the offset to the end of the tensor, none of
  -- them empty or larger than the ring, the buffers alternate, and the rows that are computed from
  -- a chunk lie inside it.
  pub stage_tensor-Tiles :
      (fuel offset ring_idx : ℕ)
      → 0 < ring_buffer_bytes
      → offset ≤ total
      → total ≤ offset + fuel
      → (chunks : List Chunk) × (last : ℕ) × (stage_tensor ring_buffer_bytes total fuel offset
            ring_idx
          ≡ some (chunks, last))
        × Tiles ring_buffer_bytes total offset ring_idx chunks
  unfolding stage_tensor
  stage_tensor-Tiles zero offset ring_idx some_ring inside enough =
      let full : ltb offset total ≡ false = ground (arith, enough) in
      ([], ring_idx, rw (stage_tensor, full), omega (arith, inside, enough))
  stage_tensor-Tiles (suc fuel) offset ring_idx some_ring inside enough =
      elim (Bool-cases (ltb offset total)) [
        | inr full ↦ ([], ring_idx, rw (stage_tensor, full), ground (arith, inside, full))
        | inl more ↦
            let (positive, bounded, fits) = size_lem offset some_ring (ground (arith, more)) in
            let chunk = chunk_at ring_buffer_bytes total offset ring_idx in
            let (chunks, last, stages, tiles) =
              stage_tensor-Tiles fuel (offset + chunk.size) (1 - ring_idx) some_ring fits
                (omega (arith, positive, enough)) in
            (
              chunk ∷ chunks,
              last,
              rw (stage_tensor, more, stages),
              (refl, refl, positive, bounded, omega arith, tiles),
            )
      ]
