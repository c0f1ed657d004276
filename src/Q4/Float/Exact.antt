-- ===== src/Q4/Float/Exact.antt =====
-- Widening a binary16 keeps its value.
use Prim.Native.Nat.add
use native.Mathlib.Nat.{pow-succ'}
use xdna_cpp.Base.{
  ℕ, zero, suc, ◌+◌, ◌-◌, ◌*◌, ◌/◌, ◌%◌, ◌^◌, ◌<◌, ◌≡◌, refl, ◌∙◌, arith, bit_and, ◌==◌,
  if◌then◌else◌, Bool-cases, inl, inr, Bool, true, ◌&&◌, ◌||◌, ltb, false, ◌≢◌,
}
use xdna_cpp.Base.Bits.{bit_and-mask, bit_and-shift, bit_or-shift}
use xdna_cpp.Base.Word.{holds_below, holds_below-apply}
use xdna_cpp.Q4.Float.{fp16_to_float, widen_subnormal}

-- The magnitude of a finite binary16, in units of 2 ^ -24.
abbrev pub half_magnitude : ℕ → ℕ
half_magnitude bits =
    let e = bits / 2 ^ 10 % 2 ^ 5 in
    let m = bits % 2 ^ 10 in if e == 0 then m else (2 ^ 10 + m) * 2 ^ (e - 1)

-- The magnitude of a finite binary32, in units of 2 ^ -149.
abbrev pub single_magnitude : ℕ → ℕ
single_magnitude bits =
    let e = bits / 2 ^ 23 % 2 ^ 8 in
    let m = bits % 2 ^ 23 in if e == 0 then m else (2 ^ 23 + m) * 2 ^ (e - 1)

pow-add : (a b : ℕ) → 2 ^ (a + b) ≡ 2 ^ a * 2 ^ b
pow-add zero b = rw (add.zero b) (omega arith)
pow-add (suc a) b = rw (add.suc a b) (simp (pow-succ', pow-add a b) (grind arith))

-- The three fields that the code cuts out.
sign_field : (bits : ℕ) → bits < 2 ^ 16 → bit_and bits 0x8000 ≡ bits / 2 ^ 15 * 2 ^ 15
sign_field bits h = bit_and-shift 15 bits 1 ∙ rw (bit_and-mask 1 (bits / 2 ^ 15)) (omega arith)

-- The results of the branches for a sign, as one sum of fields.
abbrev widened : ℕ → ℕ
widened bits =
    bits / 2 ^ 15 * 2 ^ 31 + (bits / 2 ^ 10 % 2 ^ 5 + 112) * 2 ^ 23 + bits % 2 ^ 10 * 2 ^ 13

fp16_to_float_normal :
    (bits : ℕ)
    → bits < 2 ^ 16
    → bits / 2 ^ 10 % 2 ^ 5 ≢ 0
    → bits / 2 ^ 10 % 2 ^ 5 < 31
    → fp16_to_float bits ≡ widened bits
unfolding fp16_to_float
fp16_to_float_normal bits h nonzero finite = ground (
  arith,
  sign_field bits h,
  bit_and-mask 5 (bits / 2 ^ 10),
  bit_and-mask 10 bits,
  bit_or-shift 31 (bits / 2 ^ 15) ((bits / 2 ^ 10 % 2 ^ 5 + 112) * 2 ^ 23),
  bit_or-shift 23 (bits / 2 ^ 15 * 2 ^ 8 + bits / 2 ^ 10 % 2 ^ 5 + 112) (bits % 2 ^ 10 * 2 ^ 13),
)

-- Each of the 1023 subnormal mantissas, by evaluation. `normalize` has fuel enough for all.
abbrev widens : ℕ → Bool
widens m =
    m == 0
    || (single_magnitude (widen_subnormal 0 m) == m * 2 ^ 125
        && widen_subnormal (2 ^ 31) m == widen_subnormal 0 m + 2 ^ 31
        && ltb (widen_subnormal 0 m) (2 ^ 31))

subnormal_table : holds_below widens 1024 ≡ true
unfolding holds_below widen_subnormal
subnormal_table = refl

-- The sign bit is no part of the magnitude.
single_magnitude_sign : (x : ℕ) → single_magnitude (x + 2 ^ 31) ≡ single_magnitude x
single_magnitude_sign x =
    let same_exponent : (x + 2 ^ 31) / 2 ^ 23 % 2 ^ 8 ≡ x / 2 ^ 23 % 2 ^ 8 = omega arith in
    let same_mantissa : (x + 2 ^ 31) % 2 ^ 23 ≡ x % 2 ^ 23 = omega arith in
    rw (same_exponent, same_mantissa)

single_magnitude_zero : (s : ℕ) → single_magnitude (s * 2 ^ 31) ≡ 0
single_magnitude_zero s =
    let exponent : s * 2 ^ 31 / 2 ^ 23 % 2 ^ 8 ≡ 0 = omega arith in
    let mantissa : s * 2 ^ 31 % 2 ^ 23 ≡ 0 = omega arith in rw (exponent, mantissa)

subnormal_row :
    (m : ℕ)
    → m < 1024
    → m ≢ 0
    → (single_magnitude (widen_subnormal 0 m) ≡ m * 2 ^ 125)
      × (widen_subnormal (2 ^ 31) m ≡ widen_subnormal 0 m + 2 ^ 31)
      × (widen_subnormal 0 m < 2 ^ 31)
subnormal_row m hm nonzero = ground (arith, holds_below-apply widens 1024 m hm subnormal_table)

widen_subnormal_exact :
    (s m : ℕ)
    → s < 2
    → m < 1024
    → m ≢ 0
    → (single_magnitude (widen_subnormal (s * 2 ^ 31) m) ≡ m * 2 ^ 125)
      × (widen_subnormal (s * 2 ^ 31) m / 2 ^ 31 ≡ s)
widen_subnormal_exact s m hs hm nonzero = split s hs (subnormal_row m hm nonzero)
  where
    split :
        (s : ℕ)
        → s < 2
        → (single_magnitude (widen_subnormal 0 m) ≡ m * 2 ^ 125)
          × (widen_subnormal (2 ^ 31) m ≡ widen_subnormal 0 m + 2 ^ 31)
          × (widen_subnormal 0 m < 2 ^ 31)
        → (single_magnitude (widen_subnormal (s * 2 ^ 31) m) ≡ m * 2 ^ 125)
          × (widen_subnormal (s * 2 ^ 31) m / 2 ^ 31 ≡ s)
    split zero h (magnitude, signed, below) = (magnitude, omega arith)
    split (suc zero) h (magnitude, signed, below) =
        (rw (signed, single_magnitude_sign) magnitude, rw signed (omega arith))
    split (suc (suc s)) h row = absurd (omega arith)

fp16_to_float_subnormal :
    (bits : ℕ)
    → bits < 2 ^ 16
    → bits / 2 ^ 10 % 2 ^ 5 ≡ 0
    → fp16_to_float bits ≡ (
        if bits % 2 ^ 10 == 0
        then bits / 2 ^ 15 * 2 ^ 31
        else widen_subnormal (bits / 2 ^ 15 * 2 ^ 31) (bits % 2 ^ 10))
unfolding fp16_to_float
fp16_to_float_subnormal bits h zero_exponent =
    ground (arith, sign_field bits h, bit_and-mask 5 (bits / 2 ^ 10), bit_and-mask 10 bits)

magnitude_normal :
    (e m : ℕ)
    → 0 < e
    → (if e + 112 == 0 then m * 2 ^ 13 else (2 ^ 23 + m * 2 ^ 13) * 2 ^ (e + 112 - 1))
      ≡ (if e == 0 then m else (2 ^ 10 + m) * 2 ^ (e - 1)) * 2 ^ 125
magnitude_normal zero m h = absurd (omega arith)
magnitude_normal (suc k) m h =
    let wide : suc k + 112 - 1 ≡ k + 112 = omega arith in
    let narrow : suc k - 1 ≡ k = omega arith in
    let nonzero : (suc k + 112 == 0) ≡ false = ground arith in
    let positive : (suc k == 0) ≡ false = ground arith in
    rw (nonzero, positive, wide, narrow, pow-add k 112) (omega arith)

single_magnitude_normal :
    (bits : ℕ)
    → bits < 2 ^ 16
    → 0 < bits / 2 ^ 10 % 2 ^ 5
    → bits / 2 ^ 10 % 2 ^ 5 < 31
    → single_magnitude (widened bits) ≡ half_magnitude bits * 2 ^ 125
single_magnitude_normal bits h positive finite =
    let e = bits / 2 ^ 10 % 2 ^ 5 in
    let exponent : widened bits / 2 ^ 23 % 2 ^ 8 ≡ e + 112 = omega arith in
    let mantissa : widened bits % 2 ^ 23 ≡ bits % 2 ^ 10 * 2 ^ 13 = omega arith in
    rw (exponent, mantissa) (magnitude_normal e (bits % 2 ^ 10) positive)

exact_subnormal :
    (bits : ℕ)
    → bits < 2 ^ 16
    → bits / 2 ^ 10 % 2 ^ 5 ≡ 0
    → (single_magnitude (fp16_to_float bits) ≡ half_magnitude bits * 2 ^ 125)
      × (fp16_to_float bits / 2 ^ 31 ≡ bits / 2 ^ 15)
exact_subnormal bits h small = elim (Bool-cases (bits % 2 ^ 10 == 0)) [
  | inl none_left ↦
      rw (fp16_to_float_subnormal bits h small, small, none_left)
        (rw (single_magnitude_zero (bits / 2 ^ 15)) (ground arith), omega arith)
  | inr some_left ↦
      rw (fp16_to_float_subnormal bits h small, small, some_left)
        (widen_subnormal_exact (bits / 2 ^ 15) (bits % 2 ^ 10) (omega arith) (omega arith)
          (ground arith))
]

-- Widening a finite binary16, normal or subnormal, keeps its sign and is exact: its magnitude in
-- units of 2 ^ -149 is 2 ^ 125 times that in units of 2 ^ -24.
pub fp16_to_float_exact :
    (bits : ℕ)
    → bits < 2 ^ 16
    → bits / 2 ^ 10 % 2 ^ 5 < 31
    → (single_magnitude (fp16_to_float bits) ≡ half_magnitude bits * 2 ^ 125)
      × (fp16_to_float bits / 2 ^ 31 ≡ bits / 2 ^ 15)
fp16_to_float_exact bits h finite = elim (Bool-cases (bits / 2 ^ 10 % 2 ^ 5 == 0)) [
  | inl small ↦ exact_subnormal bits h (ground arith)
  | inr normal ↦
      rw (fp16_to_float_normal bits h (ground arith) finite)
        (single_magnitude_normal bits h (ground arith) finite, omega arith)
]

-- An infinity of binary16 widens to that infinity, and a NaN to a NaN with its sign and its payload
-- in the upper bits.
pub fp16_to_float_special :
    (bits : ℕ)
    → bits < 2 ^ 16
    → bits / 2 ^ 10 % 2 ^ 5 ≡ 31
    → fp16_to_float bits ≡ bits / 2 ^ 15 * 2 ^ 31 + 255 * 2 ^ 23 + bits % 2 ^ 10 * 2 ^ 13
unfolding fp16_to_float
fp16_to_float_special bits h special = ground (
  arith,
  sign_field bits h,
  bit_and-mask 5 (bits / 2 ^ 10),
  bit_and-mask 10 bits,
  bit_or-shift 31 (bits / 2 ^ 15) (255 * 2 ^ 23),
  bit_or-shift 23 (bits / 2 ^ 15 * 2 ^ 8 + 255) (bits % 2 ^ 10 * 2 ^ 13),
)
