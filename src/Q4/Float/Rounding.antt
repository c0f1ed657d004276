-- ===== src/Q4/Float/Rounding.antt =====
-- Rounding to bfloat16.
use xdna_cpp.Base.{ℕ, ◌+◌, ◌-◌, ◌*◌, ◌/◌, ◌%◌, ◌^◌, ◌≤◌, ◌<◌, ◌≡◌, refl, ◌∙◌, arith}
use xdna_cpp.Base.Bits.{bit_and-mask}
use xdna_cpp.Base.Word.{u16, u32}
use xdna_cpp.Q4.Float.{bf16_to_float, float_to_bf16}

abbrev pub distance : ℕ → ℕ → ℕ
distance a b = (a - b) + (b - a)

float_to_bf16_lem :
    (u : ℕ) → float_to_bf16 u ≡ u16 (u32 (u + u32 (0x7fff + u / 2 ^ 16 % 2)) / 2 ^ 16)
unfolding float_to_bf16
float_to_bf16_lem u = rw (bit_and-mask 1 (u / 2 ^ 16)) refl

pub float_to_bf16-lt : (u : ℕ) → float_to_bf16 u < 2 ^ 16
float_to_bf16-lt u = rw (float_to_bf16_lem u) (omega arith)

-- For a number or an infinity, of either sign, the bfloat16 result keeps the sign, no other
-- bfloat16 pattern is nearer, and of two that are equally near it is the even one.
pub float_to_bf16_nearest :
    (u b : ℕ)
    → u < 2 ^ 32
    → u % 2 ^ 31 ≤ 0x7f800000
    → (float_to_bf16 u < 2 ^ 16)
      × (float_to_bf16 u / 2 ^ 15 ≡ u / 2 ^ 31)
      × (distance u (bf16_to_float (float_to_bf16 u)) ≤ distance u (b * 2 ^ 16))
      × (distance u (bf16_to_float (float_to_bf16 u)) ≡ 2 ^ 15 → float_to_bf16 u % 2 ≡ 0)
unfolding bf16_to_float
float_to_bf16_nearest u b h finite = rw (float_to_bf16_lem u) (omega arith)

-- Every bfloat16 pattern comes back from binary32 as it was.
pub float_to_bf16-bf16_to_float : (b : ℕ) → b < 2 ^ 16 → float_to_bf16 (bf16_to_float b) ≡ b
unfolding bf16_to_float
float_to_bf16-bf16_to_float b h = float_to_bf16_lem _ ∙ omega arith

-- A NaN whose upper 16 bits are all ones below the sign does not stay a NaN: the rounding carries
-- into the sign, and the result is a zero of the other sign.
pub float_to_bf16_nan_to_zero :
    (u : ℕ) → u < 2 ^ 32 → 0x7fff8000 ≤ u % 2 ^ 31 → float_to_bf16 u ≡ (1 - u / 2 ^ 31) * 2 ^ 15
float_to_bf16_nan_to_zero u h nan = float_to_bf16_lem u ∙ omega arith
