-- ===== src/Q4/Float.antt =====
-- The conversions between binary16, binary32 and bfloat16 of src/xdna-q4-0-reference.cpp.
-- A float is its bit pattern: the source moves it by `memcpy` from and to an integer.
pub mod Exact
pub mod Rounding
use xdna_cpp.Base.{ℕ, zero, suc, ◌+◌, ◌-◌, ◌^◌, bit_and, bit_or, ◌==◌, if◌then◌else◌}
use xdna_cpp.Base.Int.{ℤ, pos, negsuc, ◌+ℤ◌, ◌-ℤ◌}
use xdna_cpp.Base.Word.{u16, u32, shl, shr, int_to_u32}

-- What the loop that normalizes a subnormal changes.
pub record Normalized : Type 0 where
  pub mantissa : ℕ
  pub unbiased_exponent : ℤ

-- `while ((mantissa & 0x0400U) == 0)`, on fuel. A mantissa below 1024 that is not zero needs ten
-- rounds at most.
pub normalize : ℕ → Normalized → Normalized
unfolding ◌-ℤ◌
normalize zero s = s
normalize (suc fuel) s =
    let rest = normalize fuel (record {
      mantissa = u32 (shl s.mantissa 1);
      unbiased_exponent = s.unbiased_exponent -ℤ pos 1;
    }) in
    if bit_and s.mantissa 0x0400 == 0 then rest else s

-- The branch of a half subnormal.
pub widen_subnormal : ℕ → ℕ → ℕ
unfolding normalize ◌+ℤ◌
widen_subnormal sign mantissa =
    let n = normalize 10 (record { mantissa = mantissa; unbiased_exponent = negsuc 13 }) in
    bit_or (bit_or sign (u32 (shl (int_to_u32 (n.unbiased_exponent +ℤ pos 127)) 23)))
      (u32 (shl (bit_and n.mantissa 0x03ff) 13))

pub fp16_to_float : ℕ → ℕ
fp16_to_float bits =
    let sign = u32 (shl (bit_and bits 0x8000) 16) in
    let exponent = bit_and (shr bits 10) 0x1f in
    let mantissa = bit_and bits 0x03ff in
    if exponent == 0
    then (if mantissa == 0 then sign else widen_subnormal sign mantissa)
    else if exponent == 0x1f
    then bit_or (bit_or sign 0x7f800000) (u32 (shl mantissa 13))
    else bit_or (bit_or sign (u32 (shl (u32 (u32 (exponent + 2 ^ 32 - 15) + 127)) 23)))
        (u32 (shl mantissa 13))

pub bf16_to_float : ℕ → ℕ
bf16_to_float bits = u32 (shl bits 16)

pub float_to_bf16 : ℕ → ℕ
float_to_bf16 u =
    let lsb = bit_and (shr u 16) 1 in
    let rounding_bias = u32 (0x7fff + lsb) in u16 (shr (u32 (u + rounding_bias)) 16)
