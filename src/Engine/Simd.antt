-- ===== src/Engine/Simd.antt =====
-- The vector instructions that src/cpu-q4-gemv-engine.cpp uses, lane by lane as Intel's manual
-- states them. A vector is a function from the lane's number; a lane is its bit pattern.
use xdna_cpp.Base.{ℕ, ◌+◌, ◌-◌, ◌*◌, ◌/◌, ◌%◌, ◌^◌, ltb, ◌==◌, if◌then◌else◌, bit_and}
use xdna_cpp.Base.Float.{Float32}
use xdna_cpp.Base.Int.{ℤ, pos, negsuc}
use xdna_cpp.Base.Memory.{Memory}

abbrev pub Lanes : Type 0
Lanes = ℕ → ℕ

-- Sixteen bytes.
abbrev pub loadu_si128 : Memory → ℕ → Lanes
loadu_si128 memory address i = memory (address + i)

abbrev pub set1 : ℕ → Lanes
set1 v i = v

abbrev pub and_si128 : Lanes → Lanes → Lanes
and_si128 a b i = bit_and (a i) (b i)

-- A shift of each pair of bytes as one 16-bit number, seen as bytes again.
abbrev pub srli_epi16 : Lanes → ℕ → Lanes
srli_epi16 a count i =
    let word = a (i / 2 * 2) + a (i / 2 * 2 + 1) * 2 ^ 8 in
    let shifted = word / 2 ^ count in if i % 2 == 0 then shifted % 2 ^ 8 else shifted / 2 ^ 8

-- A shift of all sixteen bytes.
abbrev pub srli_si128 : Lanes → ℕ → Lanes
srli_si128 a count i = if ltb (i + count) 16 then a (i + count) else 0

-- Sign extension of the first eight bytes to 16 bits, and of 16 bits to 32.
abbrev pub cvtepi8_epi16 : Lanes → Lanes
cvtepi8_epi16 a i = if ltb (a i) (2 ^ 7) then a i else a i + (2 ^ 16 - 2 ^ 8)

abbrev pub cvtepi16_epi32 : Lanes → Lanes
cvtepi16_epi32 a i = if ltb (a i) (2 ^ 15) then a i else a i + (2 ^ 32 - 2 ^ 16)

abbrev pub sub_epi16 : Lanes → Lanes → Lanes
sub_epi16 a b i = (a i + 2 ^ 16 - b i) % 2 ^ 16

-- A 32-bit pattern as a signed integer.
abbrev pub signed32 : ℕ → ℤ
signed32 x = if ltb x (2 ^ 31) then pos x else negsuc (2 ^ 32 - 1 - x)

module _ (F : Float32) where
  abbrev pub cvtepi32_ps : Lanes → Lanes
  cvtepi32_ps a i = F.of_int (signed32 (a i))

  abbrev pub mul_ps : Lanes → Lanes → Lanes
  mul_ps a b i = F.mul (a i) (b i)

  abbrev pub add_ps : Lanes → Lanes → Lanes
  add_ps a b i = F.add (a i) (b i)

  abbrev pub fmadd_ps : Lanes → Lanes → Lanes → Lanes
  fmadd_ps a b c i = F.fma (a i) (b i) (c i)

  -- Lane 0 is the sum of the two lanes 0; the others are those of `a`.
  abbrev pub add_ss : Lanes → Lanes → Lanes
  add_ss a b i = if i == 0 then F.add (a 0) (b 0) else a i

-- Lanes 0 to 3 and lanes 4 to 7 of eight.
abbrev pub castps256_ps128 : Lanes → Lanes
castps256_ps128 a i = a i

abbrev pub extractf128_high : Lanes → Lanes
extractf128_high a i = a (i + 4)

-- The high pair of `b` below the high pair of `a`.
abbrev pub movehl_ps : Lanes → Lanes → Lanes
movehl_ps a b i = if ltb i 2 then b (i + 2) else a i

-- `_mm_shuffle_ps(h, h, 1)`: lane 1 first, then three times lane 0.
abbrev pub shuffle_one : Lanes → Lanes
shuffle_one a i = if i == 0 then a 1 else a 0
