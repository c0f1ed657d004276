-- ===== src/Device/Topologies.antt =====
-- A topology that is parsed is a valid one.
use xdna_cpp.Base.{
  ℕ, ◌*◌, ◌^◌, ◌<◌, ◌≡◌, refl, Bool, true, false, Bytes, List, [], ◌∷◌, ◌++◌, Option, none, some,
  ◌==◌, if◌then◌else◌, arith,
}
use native.Mathlib.Nat.{mod-eq_of_lt}
use xdna_cpp.Base.Text.{is_empty}
use xdna_cpp.Gate1.Json.{from_chars}
use xdna_cpp.Gate1.Arguments.Laws.{from_chars-lt}
use xdna_cpp.Device.{
  trim_spaces, nonzero, parse_uint, number_of, number_after, number_before, split_first, or_else,
  number_beside, named_number, add_number, flush, numbers_loop, numbers_in, isdigit, Topology,
  valid, compute_tiles, both, first_of, two_numbers, parse_topology,
}

-- A `uint32_t` that is not zero, if it is there.
abbrev IsCount : Option ℕ → Type 0
IsCount none = Unit
IsCount (some n) = (0 < n) × (n < 2 ^ 32)

nonzero-IsCount : (o : Option ℕ) → ((n : ℕ) → o ≡ some n → n < 2 ^ 32) → IsCount (nonzero o)
nonzero-IsCount none h = tt
nonzero-IsCount (some n) h = by_test (n == 0) (λ e. ground (arith, e))
  where
    by_test : (b : Bool) → (b ≡ false → 0 < n) → IsCount (if b then none else some n)
    by_test true positive = tt
    by_test false positive = (positive refl, h n refl)

if_none-IsCount : (b : Bool) (o : Option ℕ) → IsCount o → IsCount (if b then none else o)
if_none-IsCount true o h = tt
if_none-IsCount false o h = h

parse_uint-IsCount : (text : Bytes) → IsCount (parse_uint text)
unfolding parse_uint
parse_uint-IsCount text =
    if_none-IsCount (is_empty (trim_spaces text)) _
      (nonzero-IsCount (from_chars 0 (trim_spaces text)) (from_chars-lt 0 (trim_spaces text)))

number_of-IsCount : (digits : Bytes) → IsCount (number_of digits)
number_of-IsCount digits = if_none-IsCount (is_empty digits) _ (parse_uint-IsCount digits)

or_else-IsCount : (o other : Option ℕ) → IsCount o → IsCount other → IsCount (or_else o other)
or_else-IsCount none other h k = k
or_else-IsCount (some n) other h k = h

number_beside-IsCount : (o : Option (Bytes × Bytes)) → IsCount (number_beside o)
unfolding number_after number_before
number_beside-IsCount none = tt
number_beside-IsCount (some (before, behind)) =
    or_else-IsCount (number_after behind) (number_before before) (number_of-IsCount _)
      (number_of-IsCount _)

named_number-IsCount : (text name : Bytes) → IsCount (named_number text name)
unfolding named_number
named_number-IsCount text name = number_beside-IsCount (split_first name [] text)

abbrev AreCounts : List ℕ → Type 0
AreCounts [] = Unit
AreCounts (n ∷ numbers) = ((0 < n) × (n < 2 ^ 32)) × AreCounts numbers

add_number-AreCounts :
    (numbers : List ℕ) (o : Option ℕ)
    → AreCounts numbers
    → IsCount o
    → AreCounts (add_number numbers o)
add_number-AreCounts numbers none h k = h
add_number-AreCounts [] (some n) h k = (k, tt)
add_number-AreCounts (m ∷ numbers) (some n) h k = (h.0, add_number-AreCounts numbers (some n) h.1 k)

numbers_loop-AreCounts :
    (numbers : List ℕ) (digits text : Bytes)
    → AreCounts numbers
    → AreCounts (numbers_loop numbers digits text)
unfolding numbers_loop
numbers_loop-AreCounts numbers digits [] h =
    add_number-AreCounts numbers (number_of digits) h (number_of-IsCount digits)
numbers_loop-AreCounts numbers digits (c ∷ text) h =
    by_test (isdigit c) _ _ (numbers_loop-AreCounts numbers (digits ++ c ∷ []) text h) (
      numbers_loop-AreCounts (flush numbers digits) [] text
        (add_number-AreCounts numbers (number_of digits) h (number_of-IsCount digits)))
  where
    by_test :
        (b : Bool) (x y : List ℕ)
        → AreCounts x
        → AreCounts y
        → AreCounts (elim b [ true ↦ x | false ↦ y ])
    by_test true x y hx hy = hx
    by_test false x y hx hy = hy

-- Rows and columns from 1 to 2^32 - 1, and so a number of tiles that does not wrap around.
abbrev pub IsTopology : Option Topology → Type 0
IsTopology none = Unit
IsTopology (some topology) =
    (valid topology ≡ true)
    × (topology.rows < 2 ^ 32)
    × (topology.columns < 2 ^ 32)
    × (compute_tiles topology ≡ topology.rows * topology.columns)

counts-IsTopology :
    (a b : ℕ)
    → IsCount (some a)
    → IsCount (some b)
    → IsTopology (some (record { rows = a; columns = b }))
unfolding compute_tiles
counts-IsTopology a b (a₀, a₁) (b₀, b₁) =
    (ground (arith, a₀, b₀), a₁, b₁, mod-eq_of_lt (grind (arith, a₁, b₁)))

both-IsTopology :
    (rows columns : Option ℕ) → IsCount rows → IsCount columns → IsTopology (both rows columns)
both-IsTopology none columns h k = tt
both-IsTopology (some rows) none h k = tt
both-IsTopology (some rows) (some columns) h k = counts-IsTopology rows columns h k

first_of-IsTopology :
    (o other : Option Topology) → IsTopology o → IsTopology other → IsTopology (first_of o other)
first_of-IsTopology none other h k = k
first_of-IsTopology (some topology) other h k = h

two_numbers-IsTopology : (numbers : List ℕ) → AreCounts numbers → IsTopology (two_numbers numbers)
two_numbers-IsTopology [] h = tt
two_numbers-IsTopology (a ∷ []) h = tt
two_numbers-IsTopology (a ∷ b ∷ []) h = counts-IsTopology a b h.0 h.1.0
two_numbers-IsTopology (a ∷ b ∷ c ∷ values) h = tt

-- Whatever the text, a topology that `parse_topology` returns is valid: rows and columns are
-- positive `uint32_t`, and `compute_tiles` is their product, without wrapping around.
pub parse_topology-IsTopology : (text : Bytes) → IsTopology (parse_topology text)
unfolding parse_topology numbers_in
parse_topology-IsTopology text =
    first_of-IsTopology _ _
      (both-IsTopology _ _ (named_number-IsCount _ _) (named_number-IsCount _ _))
      (first_of-IsTopology _ _
        (both-IsTopology _ _ (named_number-IsCount _ _) (named_number-IsCount _ _))
        (two_numbers-IsTopology _ (numbers_loop-AreCounts [] [] _ tt)))
