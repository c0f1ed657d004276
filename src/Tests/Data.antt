-- ===== src/Tests/Data.antt =====
-- Shared inputs: an arithmetic on plain numbers, a row of one block, activations.
use xdna_cpp.Base.{ℕ, zero, suc, ◌+◌, ◌*◌, ◌<◌, Bytes, List, [], ◌∷◌, ◌++◌, replicate, arith}
use xdna_cpp.Base.Float.{Float32}
use xdna_cpp.Base.Int.{pos_part}
use xdna_cpp.Gate1.Image.Bounds.{AreBytes}
use xdna_cpp.Q4.Row.Weight.{byte_at}

-- Numbers stand for themselves: no rounding.
abbrev pub plain_numbers : Float32
plain_numbers = record {
  mul = λ a b. a * b;
  add = λ a b. a + b;
  fma = λ a b c. a * b + c;
  of_int = pos_part;
}

-- Scale 1.0 as a binary16, and sixteen bytes of nibbles.
abbrev pub one_block : Bytes
one_block = 0x00 ∷ 0x3c ∷ replicate 16 0x9a

abbrev pub activations : List ℕ
activations = replicate 32 2

pub byte_at-lt : (xs : Bytes) → AreBytes xs → (a : ℕ) → byte_at xs a < 256
byte_at-lt [] all a = omega arith
byte_at-lt (b ∷ xs) (small, all) zero = small
byte_at-lt (b ∷ xs) (small, all) (suc a) = byte_at-lt xs all a

pub one_block-AreBytes : AreBytes one_block
one_block-AreBytes = ground arith

pub AreBytes-append : (xs ys : Bytes) → AreBytes xs → AreBytes ys → AreBytes (xs ++ ys)
AreBytes-append [] ys hx hy = hy
AreBytes-append (x ∷ xs) ys (small, hx) hy = (small, AreBytes-append xs ys hx hy)

pub AreBytes-zeros : (n : ℕ) → AreBytes (replicate n 0)
AreBytes-zeros zero = tt
AreBytes-zeros (suc n) = (omega arith, AreBytes-zeros n)
