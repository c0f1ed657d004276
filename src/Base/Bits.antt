-- ===== src/Base/Bits.antt =====
-- `&` with a mask of low bits and `|` of disjoint fields as arithmetic, at every width.
use Prim.Native.Nat.{min, max, digits, bit_and-bitwise, bit_or-bitwise}
use native.Mathlib.Nat.{
  pow-suc, pow-succ', one-le-pow, mul-one, div-one, div-div-eq-div-mul, div-add-mod', mod-lt,
  mod-eq_of_lt, add-mul-mod_self_right,
}
use xdna_cpp.Base.Common.{
  ℕ, zero, suc, ◌+◌, ◌-◌, ◌*◌, ◌/◌, ◌%◌, ◌^◌, ◌≤◌, ◌<◌, bit_and, bit_or, ◌≡◌, refl, ap, ◌∙◌, arith,
}

-- The operations recur on a number of digits to go, which only has to be large enough.
module _ (last : ℕ → ℕ) (digit : ℕ → ℕ → ℕ) where
  any_fuel : (y m k x : ℕ) → x ≤ k → x ≤ m → digits last digit m x y ≡ digits last digit k x y
  any_fuel y (suc m) (suc k) (suc x) hk hm =
      ap (λ (t : ℕ). t * 2 + digit (suc x % 2) (y % 2))
        (any_fuel (y / 2) m k (suc x / 2) (omega arith) (omega arith))
  any_fuel y (suc m) (suc k) zero hk hm = refl
  any_fuel y (suc m) zero zero hk hm = refl
  any_fuel y zero (suc k) zero hk hm = refl
  any_fuel y zero zero zero hk hm = refl
  any_fuel y (suc m) zero (suc x) hk hm = absurd (omega (arith, hk))
  any_fuel y zero k (suc x) hk hm = absurd (omega (arith, hm))

-- The lowest digit of `x & y` and of `x | y`, and the digits above it.
and_digit : (x y : ℕ) → bit_and x y ≡ min (x % 2) (y % 2) + bit_and (x / 2) (y / 2) * 2
and_digit (suc x) y =
    let fuel =
      any_fuel (λ _. 0) min (y / 2) (suc x / 2) x (suc x / 2) (omega arith) (omega arith) in
    omega (arith, fuel, bit_and-bitwise (suc x / 2) (y / 2), bit_and-bitwise (suc x) y)
and_digit zero y = omega (arith, bit_and-bitwise 0 (y / 2), bit_and-bitwise 0 y)

or_digit : (x y : ℕ) → bit_or x y ≡ max (x % 2) (y % 2) + bit_or (x / 2) (y / 2) * 2
or_digit (suc x) y =
    let fuel =
      any_fuel (λ d. d) max (y / 2) (suc x / 2) x (suc x / 2) (omega arith) (omega arith) in
    omega (arith, fuel, bit_or-bitwise (suc x / 2) (y / 2), bit_or-bitwise (suc x) y)
or_digit zero y = omega (arith, bit_or-bitwise 0 (y / 2), bit_or-bitwise 0 y)

-- Both laws for zero at once, for numbers up to a bound.
zero_laws : (bound x : ℕ) → x ≤ bound → (bit_and x 0 ≡ 0) × (bit_or x 0 ≡ x)
zero_laws (suc bound) (suc x) h =
    let (below_and, below_or) = zero_laws bound (suc x / 2) (omega (arith, h)) in
    (omega (arith, below_and, and_digit (suc x) 0), omega (arith, below_or, or_digit (suc x) 0))
zero_laws bound zero h = (refl, refl)
zero_laws zero (suc x) h = absurd (omega (arith, h))

pub bit_and-zero : (a : ℕ) → bit_and a 0 ≡ 0
bit_and-zero a = (zero_laws a a (omega arith)).0

pub bit_or-zero : (a : ℕ) → bit_or a 0 ≡ a
bit_or-zero a = (zero_laws a a (omega arith)).1

-- A number that ends in a zero digit.
double_pow : (m k : ℕ) → m * 2 ^ suc k ≡ m * 2 ^ k * 2
double_pow m k = omega (arith, ap (λ (t : ℕ). m * t) (pow-suc 2 k))

-- `(q << k) | r` is a sum where `r` has at most `k` digits.
pub bit_or-shift : (k q r : ℕ) → r < 2 ^ k → bit_or (q * 2 ^ k) r ≡ q * 2 ^ k + r
bit_or-shift zero q zero h = rw bit_or-zero (omega arith)
bit_or-shift zero q (suc r) h = absurd (omega arith)
bit_or-shift (suc k) q r h =
    ground
      (arith, or_digit (q * 2 ^ suc k) r, double_pow q k, pow-suc 2 k, bit_or-shift k q (r / 2))

-- The same with the low field first.
pub bit_or-shift_right : (k q r : ℕ) → r < 2 ^ k → bit_or r (q * 2 ^ k) ≡ q * 2 ^ k + r
bit_or-shift_right zero q zero h = omega (arith, bit_or-bitwise 0 (q * 2 ^ 0))
bit_or-shift_right zero q (suc r) h = absurd (omega arith)
bit_or-shift_right (suc k) q r h =
    ground (
      arith,
      or_digit r (q * 2 ^ suc k),
      double_pow q k,
      pow-suc 2 k,
      bit_or-shift_right k q (r / 2),
    )

-- `a & (m << k)` keeps the digits of `a` from `k` up that `m` has.
pub bit_and-shift : (k a m : ℕ) → bit_and a (m * 2 ^ k) ≡ bit_and (a / 2 ^ k) m * 2 ^ k
bit_and-shift zero a m = simp (mul-one, div-one)
bit_and-shift (suc k) a m = ground (
  arith,
  and_digit a (m * 2 ^ suc k),
  double_pow m k,
  double_pow (bit_and (a / 2 ^ suc k) m) k,
  bit_and-shift k (a / 2) m,
  div-div-eq-div-mul a 2 (2 ^ k),
  pow-succ' 2 k,
)

-- A remainder by a power of two, from its lowest digit.
mod-pow_suc : (k a : ℕ) → a % 2 ^ suc k ≡ a / 2 % 2 ^ k * 2 + a % 2
mod-pow_suc k a =
    let low = a / 2 % 2 ^ k * 2 + a % 2 in
    let split : a ≡ low + a / 2 / 2 ^ k * 2 ^ suc k =
      omega (arith, div-add-mod' (a / 2) (2 ^ k), double_pow (a / 2 / 2 ^ k) k) in
    let fits : low < 2 ^ suc k =
      omega (arith, mod-lt (a / 2) {m = 2 ^ k} (one-le-pow k 2 (omega arith)), pow-suc 2 k) in
    ap (λ (t : ℕ). t % 2 ^ suc k) split
    ∙ add-mul-mod_self_right low (a / 2 / 2 ^ k) (2 ^ suc k)
    ∙ mod-eq_of_lt fits

-- `a & ((1 << k) - 1)` is a remainder.
pub bit_and-mask : (k a : ℕ) → bit_and a (2 ^ k - 1) ≡ a % 2 ^ k
bit_and-mask zero a = rw bit_and-zero (omega arith)
bit_and-mask (suc k) a = ground (
  arith,
  and_digit a (2 ^ suc k - 1),
  mod-pow_suc k a,
  pow-suc 2 k,
  one-le-pow k 2,
  bit_and-mask k (a / 2),
)
