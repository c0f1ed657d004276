-- ===== src/Device.antt =====
-- The topology and sysfs parsers of src/xdna-device.cpp. A position in a text is the rest of the text from there.
pub mod Topologies
pub mod Contains
pub mod Sysfs
use xdna_cpp.Base.{
  ℕ, zero, suc, ◌+◌, ◌-◌, ◌*◌, Bool, true, false, not, ◌&&◌, ◌||◌, Bytes, List, [], ◌∷◌, ◌++◌,
  reverse, Option, none, some, ◌==◌, leb, if◌then◌else◌, map,
}
use xdna_cpp.Base.Text.{bytes, ◌=ˢ◌, is_empty}
use xdna_cpp.Base.Word.{u64}
use xdna_cpp.Gate1.Json.{from_chars, after_prefix}

-- `std::isspace` and `std::isdigit` of the C locale
abbrev pub isspace : ℕ → Bool
isspace c = c == 0x20 || (leb 0x09 c && leb c 0x0d)

abbrev pub isdigit : ℕ → Bool
isdigit c = leb b'0' c && leb c b'9'

abbrev pub skip_spaces : Bytes → Bytes
skip_spaces [] = []
skip_spaces (c ∷ text) = if isspace c then skip_spaces text else c ∷ text

unfoldable pub trim_spaces : Bytes → Bytes
trim_spaces text = reverse (skip_spaces (reverse (skip_spaces text)))

unfoldable pub lowercase : Bytes → Bytes
lowercase text = map (λ c. if leb b'A' c && leb c b'Z' then c + 32 else c) text

-- A number that is not zero.
abbrev pub nonzero : Option ℕ → Option ℕ
nonzero none = none
nonzero (some value) = if value == 0 then none else some value

pub parse_uint : Bytes → Option ℕ
parse_uint text =
    let clean = trim_spaces text in if is_empty clean then none else nonzero (from_chars 0 clean)

abbrev pub take_digits : Bytes → Bytes
take_digits [] = []
take_digits (c ∷ text) = if isdigit c then c ∷ take_digits text else []

abbrev skip_separators : Bytes → Bytes
skip_separators [] = []
skip_separators (c ∷ text) =
    if isspace c || c == b'=' || c == b':' then skip_separators text else c ∷ text

abbrev number_of : Bytes → Option ℕ
number_of digits = if is_empty digits then none else parse_uint digits

pub number_after : Bytes → Option ℕ
number_after rest = number_of (take_digits (skip_separators rest))

-- The text before the position is given from its end.
pub number_before : (reversed : Bytes) → Option ℕ
number_before reversed = number_of (reverse (take_digits (skip_spaces reversed)))

-- The text before the first place of a needle, from its end, and the text behind it.
abbrev pub split_first : (needle seen text : Bytes) → Option (Bytes × Bytes)
split_first needle seen [] = none
split_first needle seen (c ∷ text) = elim (after_prefix needle (c ∷ text)) [
  | some rest ↦ some (seen, rest)
  | none ↦ split_first needle (c ∷ seen) text
]

abbrev or_else : Option ℕ → Option ℕ → Option ℕ
or_else none other = other
or_else (some value) other = some value

abbrev number_beside : Option (Bytes × Bytes) → Option ℕ
number_beside none = none
number_beside (some (before, behind)) = or_else (number_after behind) (number_before before)

pub named_number : (text name : Bytes) → Option ℕ
named_number text name = number_beside (split_first name [] text)

abbrev add_number : List ℕ → Option ℕ → List ℕ
add_number numbers none = numbers
add_number numbers (some value) = numbers ++ value ∷ []

-- The run of digits that has ended, if it is one.
abbrev pub flush : List ℕ → (digits : Bytes) → List ℕ
flush numbers digits = add_number numbers (number_of digits)

pub numbers_loop : List ℕ → (digits text : Bytes) → List ℕ
numbers_loop numbers digits [] = flush numbers digits
numbers_loop numbers digits (c ∷ text) = elim (isdigit c) [
  | true ↦ numbers_loop numbers (digits ++ c ∷ []) text
  | false ↦ numbers_loop (flush numbers digits) [] text
]

pub numbers_in : Bytes → List ℕ
numbers_in text = numbers_loop [] [] text

pub record Topology : Type 0 where
  pub rows : ℕ
  pub columns : ℕ

abbrev pub valid : Topology → Bool
valid topology = not (topology.rows == 0) && not (topology.columns == 0)

pub compute_tiles : Topology → ℕ
compute_tiles topology = u64 (topology.rows * topology.columns)

-- The multiplication sign of UTF-8 becomes an `x`.
unfoldable pub replace_signs : Bytes → Bytes
replace_signs [] = []
replace_signs (a ∷ []) = a ∷ []
replace_signs (a ∷ b ∷ text) = elim (a == 0xc3 && b == 0x97) [
  | true ↦ b'x' ∷ replace_signs text
  | false ↦ a ∷ replace_signs (b ∷ text)
]

abbrev pub both : Option ℕ → Option ℕ → Option Topology
both none columns = none
both (some rows) none = none
both (some rows) (some columns) = some (record { rows = rows; columns = columns })

abbrev pub first_of : Option Topology → Option Topology → Option Topology
first_of none other = other
first_of (some topology) other = some topology

abbrev pub two_numbers : List ℕ → Option Topology
two_numbers [] = none
two_numbers (a ∷ []) = none
two_numbers (a ∷ b ∷ []) = some (record { rows = a; columns = b })
two_numbers (a ∷ b ∷ c ∷ values) = none

pub parse_topology : Bytes → Option Topology
parse_topology text =
    let normalized = replace_signs (lowercase (trim_spaces text)) in
    let rows = named_number normalized (bytes "rows") in
    first_of (both rows (named_number normalized (bytes "columns"))) (
      first_of (both rows (named_number normalized (bytes "cols")))
        (two_numbers (numbers_in normalized)))
