-- ===== src/Engine/Nibbles.antt =====
-- What the vector code makes of sixteen packed bytes: the centred low and high nibbles in order.
use xdna_cpp.Base.{ℕ, ◌+◌, ◌*◌, ◌/◌, ◌%◌, ◌<◌, ◌≡◌, ap, ◌∙◌, arith}
use xdna_cpp.Base.Bits.{bit_and-mask}
use xdna_cpp.Base.Float.{Float32}
use xdna_cpp.Base.Int.{pos, ◌-ℤ◌}
use xdna_cpp.Engine.Dot.{centred, low_nibbles, high_nibbles}
use xdna_cpp.Engine.Simd.{
  Lanes, signed32, srli_epi16, srli_si128, cvtepi8_epi16, cvtepi16_epi32, sub_epi16, set1,
}

-- A nibble through the extensions and the 16-bit subtraction.
signed_nibble :
    (a : Lanes) (i : ℕ)
    → a i < 16
    → signed32 (cvtepi16_epi32 (sub_epi16 (cvtepi8_epi16 a) (set1 8)) i) ≡ pos (a i) -ℤ pos 8
unfolding ◌-ℤ◌
signed_nibble a i h = ground arith

module _ (F : Float32) (raw : Lanes) (bytes : (i : ℕ) → raw i < 256) (i : ℕ) where
  abbrev pub value_of : ℕ → ℕ
  value_of q = F.of_int (pos q -ℤ pos 8)

  low_nibble : low_nibbles raw i ≡ raw i % 16
  low_nibble = bit_and-mask 4 (raw i)

  -- The shift moves bits of one byte into its neighbour; the mask takes them off again.
  high_nibble : high_nibbles raw i ≡ raw i / 16
  high_nibble = bit_and-mask 4 (srli_epi16 raw 4 i) ∙ shifted
    where
      shifted : srli_epi16 raw 4 i % 16 ≡ raw i / 16
      shifted = ground (
        arith,
        bytes i,
        bytes (i / 2 * 2),
        ap raw (let even : (i / 2 * 2 + i % 2) ≡ i = omega arith in even),
      )

  pub centred_low : centred F (low_nibbles raw) i ≡ value_of (raw i % 16)
  centred_low =
      ap F.of_int (signed_nibble (low_nibbles raw) i (rw low_nibble (omega arith)))
      ∙ ap value_of low_nibble

  pub centred_high : centred F (high_nibbles raw) i ≡ value_of (raw i / 16)
  centred_high =
      ap F.of_int (signed_nibble (high_nibbles raw) i (rw high_nibble (omega (arith, bytes i))))
      ∙ ap value_of high_nibble

-- A byte shift by eight brings the upper eight lanes down.
pub centred-srli_si128 :
    (F : Float32) (a : Lanes) (i : ℕ) → i < 8 → centred F (srli_si128 a 8) i ≡ centred F a (i + 8)
centred-srli_si128 F a i h =
    let shifted : srli_si128 a 8 i ≡ a (i + 8) = ground arith in
    ap (λ (t : ℕ). centred F (λ _. t) i) shifted
