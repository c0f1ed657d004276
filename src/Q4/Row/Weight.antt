-- ===== src/Q4/Row/Weight.antt =====
-- What a Q4_0 row means: a weight for each index, by the block layout that q4_0_reference.h states.
use xdna_cpp.Base.{
  ℕ, ◌+◌, ◌*◌, ◌/◌, ◌%◌, ◌<◌, ◌≡◌, refl, Bytes, List, none, some, get_elem?, get_or, length, ltb,
  if◌then◌else◌, bit_or, arith, [], ◌∷◌, zero, suc, ◌^◌,
}
use mathlib.Core.Path.{ap₂}
use xdna_cpp.Base.{sym, ap, ◌∙◌}
use xdna_cpp.Base.Bits.{bit_and-mask}
use xdna_cpp.Base.Float.{Float32}
use xdna_cpp.Base.Int.{pos, ◌-ℤ◌}
use xdna_cpp.Base.Outcome.{done, at}
use xdna_cpp.Base.Word.{u16}
use xdna_cpp.Q4.Float.{fp16_to_float}
use xdna_cpp.Q4.Row.{low_value, high_value, load_little_endian_u16}
use xdna_cpp.Q4.Shape.{Invalid}

abbrev pub byte_at : Bytes → ℕ → ℕ
byte_at xs i = get_or xs i 0

-- The scale of block `b` of the row at byte `start`: a binary16 in little-endian order.
abbrev pub block_scale : Bytes → ℕ → ℕ → ℕ
block_scale row start b =
    fp16_to_float
      (u16 (bit_or (byte_at row (start + b * 18)) (byte_at row (start + b * 18 + 1) * 2 ^ 8)))

-- The four bits of value `i`: the low nibbles of a block are its first 16 values.
pub nibble : Bytes → ℕ → ℕ → ℕ
nibble row start i =
    let byte = byte_at row (start + i / 32 * 18 + 2 + i % 16) in
    if ltb (i % 32) 16 then byte % 16 else byte / 16

abbrev pub weight : Float32 → Bytes → ℕ → ℕ → ℕ
weight F row start i =
    F.mul (F.of_int (pos (nibble row start i) -ℤ pos 8)) (block_scale row start (i / 32))

module _ (row : Bytes) (start b j : ℕ) (h : j < 16) where
  nibble_low : nibble row start (b * 32 + j) ≡ byte_at row (start + b * 18 + 2 + j) % 16
  unfolding nibble
  nibble_low =
      let block : (b * 32 + j) / 32 ≡ b = omega arith in
      let place : (b * 32 + j) % 16 ≡ j = omega arith in rw (block, place) (ground arith)

  nibble_high : nibble row start (b * 32 + j + 16) ≡ byte_at row (start + b * 18 + 2 + j) / 16
  unfolding nibble
  nibble_high =
      let block : (b * 32 + j + 16) / 32 ≡ b = omega arith in
      let place : (b * 32 + j + 16) % 16 ≡ j = omega arith in rw (block, place) (ground arith)

-- The two values of a packed byte are the weights at its place in the two halves of the block.
module _ (F : Float32) (row : Bytes) (start b j : ℕ) (h : j < 16) where
  pub weight_low :
      low_value F (byte_at row (start + b * 18 + 2 + j)) (block_scale row start b)
      ≡ weight F row start (b * 32 + j)
  unfolding low_value
  weight_low =
      let block : (b * 32 + j) / 32 ≡ b = omega arith in
      ap₂ (λ (n s : ℕ). F.mul (F.of_int (pos n -ℤ pos 8)) s)
        (bit_and-mask 4 (byte_at row (start + b * 18 + 2 + j)) ∙ sym (nibble_low row start b j h))
        (ap (block_scale row start) (sym block))

  pub weight_high :
      high_value F (byte_at row (start + b * 18 + 2 + j)) (block_scale row start b)
      ≡ weight F row start (b * 32 + j + 16)
  unfolding high_value
  weight_high =
      let block : (b * 32 + j + 16) / 32 ≡ b = omega arith in
      ap₂ (λ (n s : ℕ). F.mul (F.of_int (pos n -ℤ pos 8)) s) (sym (nibble_high row start b j h))
        (ap (block_scale row start) (sym block))

  -- The same by the nibble's value.
  pub weight_low_nibble :
      weight F row start (b * 32 + j)
      ≡ F.mul
          (F.of_int (pos (byte_at row (start + b * 18 + 2 + j) % 16) -ℤ pos 8))
          (block_scale row start b)
  unfolding low_value
  weight_low_nibble =
      sym weight_low
      ∙ ap (λ (n : ℕ). F.mul (F.of_int (pos n -ℤ pos 8)) (block_scale row start b))
          (bit_and-mask 4 (byte_at row (start + b * 18 + 2 + j)))

  pub weight_high_nibble :
      weight F row start (b * 32 + j + 16)
      ≡ F.mul
          (F.of_int (pos (byte_at row (start + b * 18 + 2 + j) / 16) -ℤ pos 8))
          (block_scale row start b)
  unfolding high_value
  weight_high_nibble = sym weight_high

-- A read in range.
pub at-get_or :
    {E : Type 0} (xs : Bytes) (i : ℕ) → i < length xs → at {E = E} xs i ≡ done (byte_at xs i)
at-get_or [] i h = absurd (omega arith)
at-get_or (x ∷ xs) zero h = refl
at-get_or (x ∷ xs) (suc i) h = at-get_or xs i (omega arith)

pub load_scale :
    (row : Bytes) (start b : ℕ)
    → start + b * 18 + 1 < length row
    → (half : ℕ) × (load_little_endian_u16 (some row) (start + b * 18) ≡ done half)
      × (fp16_to_float half ≡ block_scale row start b)
unfolding load_little_endian_u16
load_scale row start b h = (
  u16 (bit_or (byte_at row (start + b * 18)) (byte_at row (start + b * 18 + 1) * 2 ^ 8)),
  rw (
    at-get_or {E = Invalid} row (start + b * 18) (omega arith),
    at-get_or {E = Invalid} row (start + b * 18 + 1) h,
  ),
  refl,
)

module _ {Activation : Type 0} (convert : Activation → ℕ) where
  -- The activation that is read at `i`, as a float.
  abbrev pub activation : List Activation → ℕ → ℕ
  activation xs i = elim (get_elem? xs i) [ none ↦ 0 | some x ↦ convert x ]

  pub at-activation :
      {E : Type 0} (xs : List Activation) (i : ℕ)
      → i < length xs
      → (x : Activation) × (at {E = E} xs i ≡ done x) × (convert x ≡ activation xs i)
  at-activation [] i h = absurd (omega arith)
  at-activation (x ∷ xs) zero h = (x, refl, refl)
  at-activation (x ∷ xs) (suc i) h = at-activation xs i (omega arith)
