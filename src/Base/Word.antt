-- ===== src/Base/Word.antt =====
-- Fixed-width casts, shifts, and exhaustive checks over a small range.
use xdna_cpp.Base.Common.{ℕ, zero, suc, ◌-◌, ◌*◌, ◌/◌, ◌%◌, ◌^◌, ◌<◌, ◌≡◌, Bool, true, ◌&&◌, arith}
use xdna_cpp.Base.Int.{ℤ, pos, negsuc}

abbrev pub u8 : ℕ → ℕ
u8 n = n % 2 ^ 8

abbrev pub u16 : ℕ → ℕ
u16 n = n % 2 ^ 16

abbrev pub u32 : ℕ → ℕ
u32 n = n % 2 ^ 32

-- The arithmetic of `uint64_t` and of `size_t`.
abbrev pub u64 : ℕ → ℕ
u64 n = n % 2 ^ 64

-- `std::numeric_limits<std::size_t>::max()`
abbrev pub size_max : ℕ
size_max = 2 ^ 64 - 1

abbrev pub shl : ℕ → ℕ → ℕ
shl x k = x * 2 ^ k

abbrev pub shr : ℕ → ℕ → ℕ
shr x k = x / 2 ^ k

-- `static_cast<std::uint32_t>` of an `int`
abbrev pub int_to_u32 : ℤ → ℕ
int_to_u32 (pos n) = u32 n
int_to_u32 (negsuc n) = 2 ^ 32 - 1 - u32 n

-- A test of each number below a bound.
unfoldable pub holds_below : (ℕ → Bool) → ℕ → Bool
holds_below test zero = true
holds_below test (suc bound) = holds_below test bound && test bound

pub holds_below-apply :
    (test : ℕ → Bool) (bound n : ℕ) → n < bound → holds_below test bound ≡ true → test n ≡ true
unfolding holds_below
holds_below-apply test (suc bound) n below holds = ground (arith, holds_below-apply test bound n)
holds_below-apply test zero n below holds = absurd (omega (arith, below))
